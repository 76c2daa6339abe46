-- ===== src/Parser/Router.antt =====
-- src/compiler/parser/mod.rs: the function that `parse_router` generates, and its dispatch tree.
use llmlang.Prelude.{
  ℕ, ◌+◌, Bool, false, Text, codes, List, [], ◌∷◌, ◌++◌, Option, none, some, ◌==◌, if◌then◌else◌,
  print_decimal,
}
use llmlang.Prelude.Int.{pos}
use llmlang.Token.{Token}
use llmlang.Ast.{Expr, Exprs}

-- `split('/')`
unfoldable pub segments : Text → List Text
segments [] = [] ∷ []
segments (c ∷ cs) =
    let rest = segments cs in
    if c == b'/' then [] ∷ rest else elim rest [ [] ↦ (c ∷ []) ∷ [] | s ∷ ss ↦ (c ∷ s) ∷ ss ]

-- `join("/")`
unfoldable pub join_segments : List Text → Text
join_segments [] = []
join_segments (s ∷ []) = s
join_segments (s ∷ t ∷ ss) = s ++ (b'/' ∷ join_segments (t ∷ ss))

-- A segment `:name`.
unfoldable pub is_param : Text → Bool
is_param (c ∷ _ ∷ _) = c == b':'
is_param _ = false

-- The pattern of each segment, and the positions of the parameters among the segments that are not
-- empty, from `strtok_idx` on.
unfoldable pub analyze : ℕ → List Text → List Text × List ℕ
unfolding is_param
analyze strtok_idx [] = ([], [])
analyze strtok_idx ([] ∷ segs) =
    let (patterns, indices) = analyze strtok_idx segs in ([] ∷ patterns, indices)
analyze strtok_idx ((c ∷ cs) ∷ segs) =
    let (patterns, indices) = analyze (strtok_idx + 1) segs in
    if is_param (c ∷ cs)
    then (codes "[^/]+" ∷ patterns, strtok_idx ∷ indices)
    else ((c ∷ cs) ∷ patterns, indices)

unfoldable pub anchored : Text → Text
anchored s = b'^' ∷ (s ++ (b'$' ∷ []))

abbrev pub variable : ℕ → Expr
variable k = Expr.borrow (Expr.de_bruijn k)

abbrev pub recurse_call : Text → Expr
recurse_call loop_name =
    Expr.apply (Expr.identifier loop_name) (Exprs.cons (Expr.move (Expr.de_bruijn 4)) Exprs.nil)

unfoldable pub extract_args : List ℕ → Exprs
extract_args [] = Exprs.nil
extract_args (idx ∷ rest) =
    Exprs.cons (Expr.split (variable 1) (Expr.string (codes "/")) (Expr.integer (pos idx)))
      (extract_args rest)

-- One route in front of those that were tried later.
unfoldable pub route_branch : Text → Text → Text → Expr → Expr → Expr
unfolding segments join_segments analyze anchored extract_args
route_branch loop_name method path handler otherwise =
    let (patterns, indices) = analyze 0 (segments path) in
    Expr.if_else
      (Expr.binary_op Token.bit_and (Expr.reg (variable 0) (Expr.string (anchored method)))
        (Expr.reg (variable 1) (Expr.string (anchored (join_segments patterns)))))
      (Expr.seq
        (Expr.apply handler (Exprs.cons (Expr.move (Expr.de_bruijn 3)) (extract_args indices)))
        (recurse_call loop_name))
      otherwise

pub record Route : Type 0 where
  pub method : Expr
  pub path : Expr
  pub handler : Expr

abbrev pub literal_of : Expr → Option Text
literal_of (Expr.string s) = some s
literal_of _ = none

-- A route's method and path must be string literals.
unfoldable pub add_route : Text → Route → Expr → Option Expr
unfolding route_branch
add_route loop_name r tree = elim (literal_of r.method) [
  | none ↦ none
  | some m ↦ elim (literal_of r.path) [
    | none ↦ none
    | some p ↦ some (route_branch loop_name m p r.handler tree)
  ]
]

unfoldable pub dispatch_tree : Text → Expr → List Route → Option Expr
unfolding add_route
dispatch_tree loop_name fallback [] = some (
    Expr.seq (Expr.apply fallback (Exprs.cons (Expr.move (Expr.de_bruijn 3)) Exprs.nil))
      (recurse_call loop_name))
dispatch_tree loop_name fallback (r ∷ rs) = elim (dispatch_tree loop_name fallback rs) [
  | none ↦ none
  | some tree ↦ add_route loop_name r tree
]

abbrev pub log_line : Text → ℕ → Expr
log_line label k =
    Expr.seq (Expr.write (Expr.integer (pos 1)) (Expr.cat (Expr.string label) (variable k)))
      (Expr.write (Expr.integer (pos 1)) (Expr.string (codes "\n")))

abbrev pub debug_prints : Expr
debug_prints =
    Expr.seq (log_line (codes "raw_path: ") 2)
      (Expr.seq (log_line (codes "path: ") 1) (log_line (codes "method: ") 0))

-- The loop accepts a request, reads its path and method, dispatches it, and calls itself.
unfoldable pub loop_def : Text → Expr → Expr
loop_def loop_name tree =
    Expr.define loop_name (record { name = codes "server"; expand = false } ∷ []) req_let false
  where
    method_let : Expr
    method_let =
        Expr.let_in (codes "method") (Expr.http_server (Expr.integer (pos 1)) (variable 2))
          (Expr.seq debug_prints tree)

    path_let : Expr
    path_let =
        Expr.let_in (codes "path")
          (Expr.split (variable 0) (Expr.string (codes "?")) (Expr.integer (pos 0))) method_let

    raw_path_let : Expr
    raw_path_let =
        Expr.let_in (codes "raw_path") (Expr.http_server (Expr.integer (pos 2)) (variable 0))
          path_let

    req_let : Expr
    req_let = Expr.let_in (codes "req") (Expr.read (variable 0)) raw_path_let

unfoldable pub entry_expr : Text → Expr → Expr
entry_expr loop_name port_expr =
    Expr.let_in (codes "s") (Expr.http_server (Expr.integer (pos 0)) port_expr)
      (Expr.apply (Expr.identifier loop_name) (Exprs.cons (Expr.move (Expr.de_bruijn 0)) Exprs.nil))

unfoldable pub loop_name_of : ℕ → Text
unfolding print_decimal
loop_name_of count = codes "_rt_loop_" ++ print_decimal (count + 1)
