-- ===== src/Codegen/Inference.antt =====
-- src/compiler/codegen/symbol.rs: `analyze_module_types`. The names that a function is mangled and
-- resolved to depend on the LLVM module and the path of the input, and are parameters.
use llmlang.Prelude.{
  ℕ, zero, suc, Bool, true, false, ◌&&◌, ◌||◌, not, Text, List, [], ◌∷◌, Option, none, some,
  if◌then◌else◌, lookup, insert,
}
use llmlang.Ast.{Param, Expr}
use llmlang.Verify.{actual}
use llmlang.Analysis.{returns_ptr_with_stack}
use llmlang.Codegen.Pointers.{Ptrs, infer_constraints}

pub record Types : Type 0 where
  pub fn_returns_ptr : List (Text × Bool)
  pub fn_param_ptrs : List (Text × List Bool)

abbrev pub no_ptrs : List Param → List Bool
no_ptrs [] = []
no_ptrs (_ ∷ ps) = false ∷ no_ptrs ps

unfoldable pub bools_eq : List Bool → List Bool → Bool
bools_eq [] [] = true
bools_eq (true ∷ as') (true ∷ bs) = bools_eq as' bs
bools_eq (false ∷ as') (false ∷ bs) = bools_eq as' bs
bools_eq _ _ = false

abbrev pub reverse_onto : List Bool → List Bool → List Bool
reverse_onto [] ys = ys
reverse_onto (x ∷ xs) ys = reverse_onto xs (x ∷ ys)

module _ (mangle resolve : Text → Text) where
  -- Under the name itself, its mangled and its resolved form.
  unfoldable pub insert_all : {V : Type 0} → Text → V → List (Text × V) → List (Text × V)
  unfolding insert
  insert_all name v m = insert (resolve name) v (insert (mangle name) v (insert name v m))

  unfoldable pub init_expr : Expr → Types → Types
  unfolding insert_all
  init_expr (Expr.define name params _ _) t = record {
    fn_returns_ptr = insert_all name false t.fn_returns_ptr;
    fn_param_ptrs = insert_all name (no_ptrs params) t.fn_param_ptrs;
  }
  init_expr _ t = t

  unfoldable pub init_types : List Expr → Types → Types
  unfolding init_expr
  init_types [] t = t
  init_types (e ∷ es) t = init_types es (init_expr (actual e) t)

  abbrev pub params_of : Text → List Param → Types → List Bool
  params_of name params t = elim (lookup name t.fn_param_ptrs) [
    | none ↦ no_ptrs params
    | some ps ↦ ps
  ]

  -- What the body tells of the parameters.
  unfoldable pub infer_params : Text → List Param → Expr → Types → List Bool
  unfolding infer_constraints lookup
  infer_params name params body t =
      let current = params_of name params t in
      let s : Ptrs =
        infer_constraints resolve t.fn_returns_ptr t.fn_param_ptrs body
          (record { stack = reverse_onto current []; params = current }) in
      s.params

  unfoldable pub update_params : Text → List Param → Expr → Types → Bool × Types
  unfolding infer_params bools_eq insert_all
  update_params name params body t =
      let new_params = infer_params name params body t in
      if bools_eq new_params (params_of name params t)
      then (false, t)
      else (true, record t { fn_param_ptrs = insert_all name new_params t.fn_param_ptrs })

  abbrev pub is_known : Option Bool → Bool
  is_known (some true) = true
  is_known _ = false

  unfoldable pub update_return : Text → List Param → Expr → Types → Bool × Types
  unfolding returns_ptr_with_stack insert_all lookup
  update_return name params body t =
      if returns_ptr_with_stack body (reverse_onto (params_of name params t) []) t.fn_returns_ptr
        && not (is_known (lookup name t.fn_returns_ptr))
      then (true, record t { fn_returns_ptr = insert_all name true t.fn_returns_ptr })
      else (false, t)

  unfoldable pub update_expr : Expr → Types → Bool × Types
  unfolding update_params update_return
  update_expr (Expr.define name params body _) t =
      let (changed, t₁) = update_params name params body t in
      let (changed', t₂) = update_return name params body t₁ in (changed || changed', t₂)
  update_expr _ t = (false, t)

  -- One iteration over the module, and whether it changed anything.
  unfoldable pub round : List Expr → Types → Bool × Types
  unfolding update_expr
  round [] t = (false, t)
  round (e ∷ es) t =
      let (changed, t₁) = update_expr (actual e) t in
      let (changed', t₂) = round es t₁ in (changed || changed', t₂)

  -- At most so many iterations, until one changes nothing.
  unfoldable pub iterate : ℕ → List Expr → Types → Types
  unfolding round
  iterate zero es t = t
  iterate (suc n) es t =
      let (changed, t₁) = round es t in let later = iterate n es t₁ in if changed then later else t₁

  unfoldable pub analyze_module_types : List Expr → Types → Types
  unfolding init_types iterate
  analyze_module_types exprs t = iterate 100 exprs (init_types exprs t)
