-- ===== src/Codegen/Pointers.antt =====
-- src/compiler/codegen/symbol.rs: `infer_constraints` and `mark_as_ptr`, which find the parameters that
-- hold pointers. `stack` is kept with its top first, `params` with the first parameter first. The
-- function that a name resolves to depends on the functions of the LLVM module, and is a parameter.
use llmlang.Prelude.{
  ℕ, zero, suc, ◌-◌, Bool, true, false, ◌||◌, Text, codes, text_eq, List, ◌∷◌, Option, none, some,
  if◌then◌else◌, length, set, pop, ltb, leb, lookup,
}
use llmlang.Ast.{Expr, Exprs}
use llmlang.Analysis.{returns_ptr_with_stack}

pub record Ptrs : Type 0 where
  pub stack : List Bool
  pub params : List Bool

abbrev pub Infer : Type 0
Infer = Ptrs → Ptrs

infixl 5 ◌>>◌
abbrev pub ◌>>◌ : Infer → Infer → Infer
p >> q = λ s. q (p s)

unfoldable pub mark_at : ℕ → Infer
mark_at idx s =
    if ltb idx (length s.stack)
    then record {
      stack = set s.stack idx true;
      params = set s.params (length s.stack - 1 - idx) true;
    }
    else s

unfoldable pub mark_as_ptr : Expr → Infer
unfolding mark_at
mark_as_ptr (Expr.de_bruijn idx) = mark_at idx
mark_as_ptr (Expr.move e) = mark_as_ptr e
mark_as_ptr (Expr.borrow e) = mark_as_ptr e
mark_as_ptr (Expr.mut_borrow e) = mark_as_ptr e
mark_as_ptr _ = λ s. s

-- The first arguments, as many as `n`.
unfoldable pub mark_first : ℕ → Exprs → Infer
unfolding mark_as_ptr
mark_first zero args = λ s. s
mark_first (suc n) Exprs.nil = λ s. s
mark_first (suc n) (Exprs.cons e es) = do mark_as_ptr e; mark_first n es

-- The arguments that stand where the callee takes a pointer.
unfoldable pub mark_zip : Exprs → List Bool → Infer
unfolding mark_as_ptr
mark_zip (Exprs.cons e es) (true ∷ ptrs) = do mark_as_ptr e; mark_zip es ptrs
mark_zip (Exprs.cons e es) (false ∷ ptrs) = mark_zip es ptrs
mark_zip _ _ = λ s. s

abbrev pub count_args : Exprs → ℕ
count_args Exprs.nil = 0
count_args (Exprs.cons _ es) = suc (count_args es)

abbrev pub first_of : Option (List Bool) → Option (List Bool) → Option (List Bool)
first_of (some ptrs) other = some ptrs
first_of none other = other

module _ (resolve : Text → Text) (fn_returns_ptr : List (Text × Bool))
    (fn_param_ptrs : List (Text × List Bool)) where
  unfoldable pub mark_callee : Text → Exprs → Infer
  unfolding mark_first mark_zip text_eq lookup
  mark_callee callee_name args =
      let resolved = resolve callee_name in
      if text_eq resolved (codes "verify") || text_eq resolved (codes "crypto_verify")
      then (if leb 3 (count_args args) then mark_first 3 args else λ s. s)
      else if text_eq resolved (codes "sign") || text_eq resolved (codes "crypto_sign")
      then (if leb 2 (count_args args) then mark_first 2 args else λ s. s)
      else elim (first_of (lookup resolved fn_param_ptrs) (lookup callee_name fn_param_ptrs)) [
        | none ↦ λ s. s
        | some ptrs ↦ mark_zip args ptrs
      ]

  unfoldable pub mark_call : Expr → Exprs → Infer
  unfolding mark_callee
  mark_call (Expr.identifier callee_name) args = mark_callee callee_name args
  mark_call _ args = λ s. s

  -- The body of a `let`, under its variable.
  unfoldable pub under_let : Expr → Infer → Infer
  unfolding returns_ptr_with_stack
  under_let val body s =
      let t =
        body (record s { stack = returns_ptr_with_stack val s.stack fn_returns_ptr ∷ s.stack }) in
      record t { stack = pop t.stack }

  unfoldable mutual
    unfolding mark_as_ptr mark_call under_let

    pub infer_constraints : Expr → Infer
    infer_constraints (Expr.let_in _ v b) = do
      infer_constraints v
      under_let v (infer_constraints b)
    infer_constraints (Expr.apply f args) = do
      infer_constraints f
      infer_args args
      mark_call f args
    infer_constraints (Expr.seq l r) = do infer_constraints l; infer_constraints r
    infer_constraints (Expr.if_else c t f) = do
      infer_constraints c
      infer_constraints t
      infer_constraints f
    infer_constraints (Expr.move e) = infer_constraints e
    infer_constraints (Expr.borrow e) = infer_constraints e
    infer_constraints (Expr.mut_borrow e) = infer_constraints e
    infer_constraints (Expr.trap t f) = do infer_constraints t; infer_constraints f
    infer_constraints (Expr.cat l r) = do
      mark_as_ptr l
      mark_as_ptr r
      infer_constraints l
      infer_constraints r
    infer_constraints (Expr.sub s b l) = do
      mark_as_ptr s
      infer_constraints s
      infer_constraints b
      infer_constraints l
    infer_constraints (Expr.len e) = do mark_as_ptr e; infer_constraints e
    infer_constraints (Expr.loc s p) = do
      mark_as_ptr s
      mark_as_ptr p
      infer_constraints s
      infer_constraints p
    infer_constraints (Expr.reg s p) = do
      mark_as_ptr s
      mark_as_ptr p
      infer_constraints s
      infer_constraints p
    infer_constraints (Expr.split s d i) = do
      mark_as_ptr s
      mark_as_ptr d
      infer_constraints s
      infer_constraints d
      infer_constraints i
    infer_constraints (Expr.write h s) = do
      mark_as_ptr h
      mark_as_ptr s
      infer_constraints h
      infer_constraints s
    infer_constraints (Expr.get i _ k) = do mark_as_ptr i; infer_constraints i; infer_constraints k
    infer_constraints (Expr.set i _ k v) = do
      mark_as_ptr i
      infer_constraints i
      infer_constraints k
      infer_constraints v
    infer_constraints (Expr.unpack e _) = do mark_as_ptr e; infer_constraints e
    infer_constraints (Expr.pack e) = do mark_as_ptr e; infer_constraints e
    infer_constraints (Expr.map i _ f) = do mark_as_ptr i; infer_constraints i; infer_constraints f
    infer_constraints (Expr.filter i f) = do mark_as_ptr i; infer_constraints i; infer_constraints f
    infer_constraints (Expr.http_client m u b) = do
      mark_as_ptr m
      mark_as_ptr u
      mark_as_ptr b
      infer_constraints m
      infer_constraints u
      infer_constraints b
    infer_constraints (Expr.http_server _ arg) = do mark_as_ptr arg; infer_constraints arg
    infer_constraints (Expr.file_open p m) = do
      mark_as_ptr p
      mark_as_ptr m
      infer_constraints p
      infer_constraints m
    infer_constraints _ = λ s. s

    pub infer_args : Exprs → Infer
    infer_args Exprs.nil = λ s. s
    infer_args (Exprs.cons e es) = do infer_constraints e; infer_args es
