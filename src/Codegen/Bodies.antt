-- ===== src/Codegen/Bodies.antt =====
-- src/compiler/ast/mod.rs: the expressions that stand in the body of a function.
use llmlang.Prelude.{ℕ, ltb, ◌&&◌, ◌≡◌, false}
use llmlang.Analysis.{is_pure, complexity}
use llmlang.Ast.{Expr, Exprs}

-- A tag or a value of metadata that is a literal.
abbrev pub IsLiteral : Expr → Type 0
IsLiteral (Expr.string _) = Unit
IsLiteral (Expr.integer _) = Unit
IsLiteral _ = ⊥

module _ (threshold : ℕ) where
  -- The expression has effects, or its complexity does not exceed the threshold for a task of its own.
  abbrev pub IsSmall : Expr → Type 0
  IsSmall e = (is_pure e && ltb threshold (complexity e)) ≡ false

  -- The syntax tree of an expression without definitions inside of it, whose metadata has literals for
  -- tags and values, and whose left operands and arguments but the last one are small: these are the
  -- places that can get a task of their own.
  unfoldable mutual
    pub Inner : Expr → Type 0
    Inner (Expr.integer _) = Unit
    Inner (Expr.float _) = Unit
    Inner (Expr.de_bruijn _) = Unit
    Inner (Expr.identifier _) = Unit
    Inner (Expr.binary_op _ e1 e2) = IsSmall e1 × Inner e1 × Inner e2
    Inner (Expr.apply _ es) = InnerAll es
    Inner (Expr.move e1) = Inner e1
    Inner (Expr.borrow e1) = Inner e1
    Inner (Expr.mut_borrow e1) = Inner e1
    Inner (Expr.define _ _ _ _) = ⊥
    Inner (Expr.shape _ _ _) = Unit
    Inner (Expr.new _ e1) = Inner e1
    Inner (Expr.get e1 _ e2) = Inner e1 × Inner e2
    Inner (Expr.set e1 _ e2 e3) = Inner e1 × Inner e2 × Inner e3
    Inner (Expr.if_else e1 e2 e3) = Inner e1 × Inner e2 × Inner e3
    Inner (Expr.expand _) = Unit
    Inner (Expr.let_in _ e1 e2) = Inner e1 × Inner e2
    Inner (Expr.import _ _ _) = Unit
    Inner (Expr.string _) = Unit
    Inner (Expr.len e1) = Inner e1
    Inner (Expr.cat e1 e2) = Inner e1 × Inner e2
    Inner (Expr.sub e1 e2 e3) = Inner e1 × Inner e2 × Inner e3
    Inner (Expr.loc e1 e2) = Inner e1 × Inner e2
    Inner (Expr.reg e1 e2) = Inner e1 × Inner e2
    Inner (Expr.read e1) = Inner e1
    Inner (Expr.write e1 e2) = Inner e1 × Inner e2
    Inner (Expr.str e1) = Inner e1
    Inner (Expr.split e1 e2 e3) = Inner e1 × Inner e2 × Inner e3
    Inner Expr.time_now = Unit
    Inner Expr.time_nano = Unit
    Inner (Expr.time_get e1 e2) = Inner e1 × Inner e2
    Inner (Expr.time_set e1 e2 e3 e4 e5 e6) =
        Inner e1 × Inner e2 × Inner e3 × Inner e4 × Inner e5 × Inner e6
    Inner (Expr.env e1) = Inner e1
    Inner (Expr.seq e1 e2) = Inner e1 × Inner e2
    Inner (Expr.pack e1) = Inner e1
    Inner (Expr.unpack e1 _) = Inner e1
    Inner (Expr.metadata e1 e2 e3) = IsLiteral e1 × IsLiteral e2 × Inner e3
    Inner (Expr.otel_emit e1 e2 e3 e4) = Inner e1 × Inner e2 × Inner e3 × Inner e4
    Inner (Expr.map e1 _ _) = Inner e1
    Inner (Expr.filter e1 _) = Inner e1
    Inner (Expr.money_op _ e1 e2) = Inner e1 × Inner e2
    Inner (Expr.money_str e1) = Inner e1
    Inner (Expr.time_op _ e1 e2) = Inner e1 × Inner e2
    Inner Expr.time_zone = Unit
    Inner (Expr.panic e1) = Inner e1
    Inner (Expr.trap e1 e2) = Inner e1 × Inner e2
    Inner (Expr.http_client e1 e2 e3) = Inner e1 × Inner e2 × Inner e3
    Inner (Expr.http_server e1 e2) = Inner e1 × Inner e2
    Inner (Expr.http_header e1 e2) = Inner e1 × Inner e2
    Inner (Expr.file_open e1 e2) = Inner e1 × Inner e2

    pub InnerAll : Exprs → Type 0
    InnerAll Exprs.nil = Unit
    InnerAll (Exprs.cons e Exprs.nil) = Inner e
    InnerAll (Exprs.cons e (Exprs.cons d es)) = IsSmall e × Inner e × InnerAll (Exprs.cons d es)
