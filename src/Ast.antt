-- ===== src/Ast.antt =====
-- src/compiler/ast/mod.rs: the syntax tree. `Exprs` is `Vec<Expr>` inside a tree.
use llmlang.Prelude.{ℕ, Bool, Text, List, [], ◌∷◌}
use llmlang.Prelude.Int.{ℤ}
use llmlang.Token.{Token, Float}

pub record Param : Type 0 where
  pub name : Text
  pub expand : Bool

mutual
  pub data Expr : Type 0 where
    integer : ℤ → Expr
    float : Float → Expr
    de_bruijn : ℕ → Expr
    identifier : Text → Expr
    binary_op : Token → Expr → Expr → Expr
    apply : Expr → Exprs → Expr
    move : Expr → Expr
    borrow : Expr → Expr
    mut_borrow : Expr → Expr
    define : Text → List Param → Expr → Bool → Expr
    shape : Text → List Text → Bool → Expr
    new : Text → Expr → Expr
    get : Expr → Text → Expr → Expr
    set : Expr → Text → Expr → Expr → Expr
    if_else : Expr → Expr → Expr → Expr
    expand : Text → Expr
    let_in : Text → Expr → Expr → Expr
    import : Text → Text → ℕ → Expr
    string : Text → Expr
    len : Expr → Expr
    cat : Expr → Expr → Expr
    sub : Expr → Expr → Expr → Expr
    loc : Expr → Expr → Expr
    reg : Expr → Expr → Expr
    read : Expr → Expr
    write : Expr → Expr → Expr
    str : Expr → Expr
    split : Expr → Expr → Expr → Expr
    time_now : Expr
    time_nano : Expr
    time_get : Expr → Expr → Expr
    time_set : Expr → Expr → Expr → Expr → Expr → Expr → Expr
    env : Expr → Expr
    seq : Expr → Expr → Expr
    pack : Expr → Expr
    unpack : Expr → Text → Expr
    metadata : Expr → Expr → Expr → Expr
    otel_emit : Expr → Expr → Expr → Expr → Expr
    map : Expr → Text → Expr → Expr
    filter : Expr → Expr → Expr
    money_op : Token → Expr → Expr → Expr
    money_str : Expr → Expr
    time_op : Token → Expr → Expr → Expr
    time_zone : Expr
    panic : Expr → Expr
    trap : Expr → Expr → Expr
    http_client : Expr → Expr → Expr → Expr
    http_server : Expr → Expr → Expr
    http_header : Expr → Expr → Expr
    file_open : Expr → Expr → Expr

  pub data Exprs : Type 0 where
    nil : Exprs
    cons : Expr → Exprs → Exprs

abbrev pub to_exprs : List Expr → Exprs
to_exprs [] = Exprs.nil
to_exprs (e ∷ es) = Exprs.cons e (to_exprs es)
