-- ===== src/Analysis/Calls.antt =====
-- src/compiler/analysis/mod.rs: `get_calls`. A name is pushed behind those that were collected.
use llmlang.Prelude.{Text, List, [], ◌∷◌, ◌++◌}
use llmlang.Ast.{Expr, Exprs}

-- A call that mutates the names collected so far.
abbrev pub Collect : Type 0
Collect = List Text → List Text

infixl 5 ◌>>◌
abbrev pub ◌>>◌ : Collect → Collect → Collect
p >> q = λ calls. q (p calls)

unfoldable pub push : Text → Collect
push name calls = calls ++ (name ∷ [])

unfoldable mutual
  unfolding push

  pub collect_calls : Expr → Collect
  collect_calls (Expr.identifier name) = push name
  collect_calls (Expr.expand name) = push name
  collect_calls (Expr.apply f args) = do collect_calls f; collect_args args
  collect_calls (Expr.move e) = collect_calls e
  collect_calls (Expr.borrow e) = collect_calls e
  collect_calls (Expr.mut_borrow e) = collect_calls e
  collect_calls (Expr.len e) = collect_calls e
  collect_calls (Expr.str e) = collect_calls e
  collect_calls (Expr.read e) = collect_calls e
  collect_calls (Expr.env e) = collect_calls e
  collect_calls (Expr.pack e) = collect_calls e
  collect_calls (Expr.money_str e) = collect_calls e
  collect_calls (Expr.panic e) = collect_calls e
  collect_calls (Expr.metadata tag v t) = do collect_calls tag; collect_calls v; collect_calls t
  collect_calls (Expr.otel_emit t a₁ a₂ a₃) = do
    collect_calls t
    collect_calls a₁
    collect_calls a₂
    collect_calls a₃
  collect_calls (Expr.unpack e shape) = do push shape; collect_calls e
  collect_calls (Expr.new shape count) = do push shape; collect_calls count
  collect_calls (Expr.trap t f) = do collect_calls t; collect_calls f
  collect_calls (Expr.get i _ idx) = do collect_calls i; collect_calls idx
  collect_calls (Expr.set i _ idx v) = do collect_calls i; collect_calls idx; collect_calls v
  collect_calls (Expr.sub s b l) = do collect_calls s; collect_calls b; collect_calls l
  collect_calls (Expr.split s b l) = do collect_calls s; collect_calls b; collect_calls l
  collect_calls (Expr.http_client m u b) = do collect_calls m; collect_calls u; collect_calls b
  collect_calls (Expr.http_server op arg) = do collect_calls op; collect_calls arg
  collect_calls (Expr.http_header req name) = do collect_calls req; collect_calls name
  collect_calls (Expr.file_open path mode) = do collect_calls path; collect_calls mode
  collect_calls (Expr.binary_op _ l r) = do collect_calls l; collect_calls r
  collect_calls (Expr.seq l r) = do collect_calls l; collect_calls r
  collect_calls (Expr.time_op _ l r) = do collect_calls l; collect_calls r
  collect_calls (Expr.loc l r) = do collect_calls l; collect_calls r
  collect_calls (Expr.reg l r) = do collect_calls l; collect_calls r
  collect_calls (Expr.write l r) = do collect_calls l; collect_calls r
  collect_calls (Expr.money_op _ l r) = do collect_calls l; collect_calls r
  collect_calls (Expr.if_else c t f) = do collect_calls c; collect_calls t; collect_calls f
  collect_calls (Expr.let_in _ v b) = do collect_calls v; collect_calls b
  collect_calls (Expr.define _ _ body _) = collect_calls body
  collect_calls (Expr.map e _ f) = do collect_calls e; collect_calls f
  collect_calls (Expr.filter e f) = do collect_calls e; collect_calls f
  collect_calls (Expr.time_get t i) = do collect_calls t; collect_calls i
  collect_calls (Expr.time_set y m d h mn s) = do
    collect_calls y
    collect_calls m
    collect_calls d
    collect_calls h
    collect_calls mn
    collect_calls s
  collect_calls _ = λ calls. calls

  pub collect_args : Exprs → Collect
  collect_args Exprs.nil = λ calls. calls
  collect_args (Exprs.cons e es) = do collect_calls e; collect_args es

unfoldable pub get_calls : Expr → List Text
unfolding collect_calls
get_calls e = collect_calls e []
