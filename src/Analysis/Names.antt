-- ===== src/Analysis/Names.antt =====
-- src/compiler/analysis/mod.rs: what `get_calls` finds, against an independent description.
use llmlang.Prelude.{refl, inl, inr, ◌↔◌, Text, [], Memᴰ}
use llmlang.Ast.{Expr, Exprs}
use llmlang.Analysis.Calls.{Collect, push, collect_calls, get_calls}
use llmlang.Analysis.Calls
use llmlang.Analysis.Mentions.{
  Mentions, Adds, Among, listed, collect_all, Adds-then, Adds-nothing, Adds-parts, Adds-named,
  through,
}

module _ (c : Text) where
  mutual
    unfolding collect_calls collect_all

    calls-Adds : (e : Expr) → Adds c (Mentions c e) (collect_calls e)
    calls-Adds (Expr.identifier name) = Adds-named c (Expr.identifier name) name refl tt
    calls-Adds (Expr.expand name) = Adds-named c (Expr.expand name) name refl tt
    calls-Adds (Expr.new shape count) =
        Adds-named c (Expr.new shape count) shape refl (calls-Adds count, tt)
    calls-Adds (Expr.unpack e shape) =
        Adds-named c (Expr.unpack e shape) shape refl (calls-Adds e, tt)
    calls-Adds (Expr.apply f args) = Adds-parts c (Expr.apply f args) _ refl (
        Adds-then c _ _ (collect_calls f) (Calls.collect_args args) (calls-Adds f) (args-Adds args))
    calls-Adds (Expr.binary_op x l r) =
        through c (Expr.binary_op x l r) refl (calls-Adds l, (calls-Adds r, tt))
    calls-Adds (Expr.move e) = through c (Expr.move e) refl (calls-Adds e, tt)
    calls-Adds (Expr.borrow e) = through c (Expr.borrow e) refl (calls-Adds e, tt)
    calls-Adds (Expr.mut_borrow e) = through c (Expr.mut_borrow e) refl (calls-Adds e, tt)
    calls-Adds (Expr.define x x₁ body x₂) =
        through c (Expr.define x x₁ body x₂) refl (calls-Adds body, tt)
    calls-Adds (Expr.get i x index) =
        through c (Expr.get i x index) refl (calls-Adds i, (calls-Adds index, tt))
    calls-Adds (Expr.set i x index v) =
        through c (Expr.set i x index v) refl (calls-Adds i, (calls-Adds index, (calls-Adds v, tt)))
    calls-Adds (Expr.if_else k t e) =
        through c (Expr.if_else k t e) refl (calls-Adds k, (calls-Adds t, (calls-Adds e, tt)))
    calls-Adds (Expr.let_in x v body) =
        through c (Expr.let_in x v body) refl (calls-Adds v, (calls-Adds body, tt))
    calls-Adds (Expr.len e) = through c (Expr.len e) refl (calls-Adds e, tt)
    calls-Adds (Expr.sub s from n) =
        through c (Expr.sub s from n) refl (calls-Adds s, (calls-Adds from, (calls-Adds n, tt)))
    calls-Adds (Expr.loc l r) = through c (Expr.loc l r) refl (calls-Adds l, (calls-Adds r, tt))
    calls-Adds (Expr.reg l r) = through c (Expr.reg l r) refl (calls-Adds l, (calls-Adds r, tt))
    calls-Adds (Expr.read e) = through c (Expr.read e) refl (calls-Adds e, tt)
    calls-Adds (Expr.write h s) = through c (Expr.write h s) refl (calls-Adds h, (calls-Adds s, tt))
    calls-Adds (Expr.str e) = through c (Expr.str e) refl (calls-Adds e, tt)
    calls-Adds (Expr.split s at n) =
        through c (Expr.split s at n) refl (calls-Adds s, (calls-Adds at, (calls-Adds n, tt)))
    calls-Adds (Expr.time_get t i) =
        through c (Expr.time_get t i) refl (calls-Adds t, (calls-Adds i, tt))
    calls-Adds (Expr.time_set y m d h mn s) = through c (Expr.time_set y m d h mn s) refl (
      calls-Adds y,
      (calls-Adds m, (calls-Adds d, (calls-Adds h, (calls-Adds mn, (calls-Adds s, tt))))),
    )
    calls-Adds (Expr.env e) = through c (Expr.env e) refl (calls-Adds e, tt)
    calls-Adds (Expr.seq l r) = through c (Expr.seq l r) refl (calls-Adds l, (calls-Adds r, tt))
    calls-Adds (Expr.pack e) = through c (Expr.pack e) refl (calls-Adds e, tt)
    calls-Adds (Expr.metadata tag v t) =
        through c (Expr.metadata tag v t) refl (calls-Adds tag, (calls-Adds v, (calls-Adds t, tt)))
    calls-Adds (Expr.otel_emit t a₁ a₂ a₃) =
        through c (Expr.otel_emit t a₁ a₂ a₃) refl
          (calls-Adds t, (calls-Adds a₁, (calls-Adds a₂, (calls-Adds a₃, tt))))
    calls-Adds (Expr.map e x f) = through c (Expr.map e x f) refl (calls-Adds e, (calls-Adds f, tt))
    calls-Adds (Expr.filter e f) =
        through c (Expr.filter e f) refl (calls-Adds e, (calls-Adds f, tt))
    calls-Adds (Expr.money_op x l r) =
        through c (Expr.money_op x l r) refl (calls-Adds l, (calls-Adds r, tt))
    calls-Adds (Expr.money_str e) = through c (Expr.money_str e) refl (calls-Adds e, tt)
    calls-Adds (Expr.time_op x l r) =
        through c (Expr.time_op x l r) refl (calls-Adds l, (calls-Adds r, tt))
    calls-Adds (Expr.panic e) = through c (Expr.panic e) refl (calls-Adds e, tt)
    calls-Adds (Expr.trap t f) = through c (Expr.trap t f) refl (calls-Adds t, (calls-Adds f, tt))
    calls-Adds (Expr.http_client m u b) =
        through c (Expr.http_client m u b) refl (calls-Adds m, (calls-Adds u, (calls-Adds b, tt)))
    calls-Adds (Expr.http_server op arg) =
        through c (Expr.http_server op arg) refl (calls-Adds op, (calls-Adds arg, tt))
    calls-Adds (Expr.http_header req name) =
        through c (Expr.http_header req name) refl (calls-Adds req, (calls-Adds name, tt))
    calls-Adds (Expr.file_open path mode) =
        through c (Expr.file_open path mode) refl (calls-Adds path, (calls-Adds mode, tt))
    calls-Adds (Expr.integer n) = through c (Expr.integer n) refl tt
    calls-Adds (Expr.float f) = through c (Expr.float f) refl tt
    calls-Adds (Expr.de_bruijn k) = through c (Expr.de_bruijn k) refl tt
    calls-Adds (Expr.string t) = through c (Expr.string t) refl tt
    calls-Adds (Expr.cat l r) = through c (Expr.cat l r) refl tt
    calls-Adds (Expr.time_now) = through c (Expr.time_now) refl tt
    calls-Adds (Expr.time_nano) = through c (Expr.time_nano) refl tt
    calls-Adds (Expr.time_zone) = through c (Expr.time_zone) refl tt
    calls-Adds (Expr.shape n fields exported) = through c (Expr.shape n fields exported) refl tt
    calls-Adds (Expr.import file symbol arity) = through c (Expr.import file symbol arity) refl tt

    args-Adds : (es : Exprs) → Adds c (Among c (listed es)) (Calls.collect_args es)
    args-Adds Exprs.nil = Adds-nothing c
    args-Adds (Exprs.cons e es) = Adds-then c _ _ _ _ (calls-Adds e) (args-Adds es)

-- `get_calls` finds exactly the names that an expression mentions outside its concatenations: the
-- callees and all other identifiers, the functions that are expanded, and the shapes that are made or
-- read.
pub get_calls-iff_Mentions : (c : Text) (e : Expr) → Memᴰ c (get_calls e) ↔ Mentions c e
unfolding get_calls
get_calls-iff_Mentions c e = (
  λ m. elim (((calls-Adds c e).at []).0 m) [ inl before ↦ elim before [ ] | inr new ↦ new ],
  λ h. ((calls-Adds c e).at []).1 (inr h),
)
