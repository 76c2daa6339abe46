-- ===== src/Codegen/Settles.antt =====
-- src/compiler/codegen/symbol.rs: what `analyze_module_types` ends with.
use llmlang.Prelude.{
  ℕ, zero, suc, ◌<◌, ◌≡◌, refl, sym, ◌∙◌, subst, ◌⊎◌, inl, inr, Bool, true, false, ◌&&◌, ◌||◌, not,
  Text, List, [], ◌∷◌, lookup, arith, Bool-cases,
}
use llmlang.Ast.{Param, Expr}
use llmlang.Verify.{actual}
use llmlang.Analysis.{returns_ptr_with_stack}
use llmlang.Codegen.Inference.{
  Types, bools_eq, reverse_onto, params_of, infer_params, is_known, update_params, update_return,
  update_expr, round, iterate, init_types, analyze_module_types,
}

or-parts : (a b : Bool) → (a || b) ≡ false → (a ≡ false) × (b ≡ false)
or-parts a b h = ground arith

module _ (mangle resolve : Text → Text) where
  params_unchanged :
      (name : Text) (params : List Param) (body : Expr) (t : Types)
      → (update_params mangle resolve name params body t).0 ≡ false
      → (update_params mangle resolve name params body t).1 ≡ t
  unfolding update_params
  params_unchanged name params body t h =
      elim (Bool-cases (
        bools_eq (infer_params mangle resolve name params body t)
          (params_of mangle resolve name params t))) [
            | inl e ↦ rw (e, update_params) refl
            | inr e ↦ let never : true ≡ false = rw (e, update_params) at h in cc
          ]

  return_unchanged :
      (name : Text) (params : List Param) (body : Expr) (t : Types)
      → (update_return mangle resolve name params body t).0 ≡ false
      → (update_return mangle resolve name params body t).1 ≡ t
  unfolding update_return
  return_unchanged name params body t h =
      elim (Bool-cases (
        returns_ptr_with_stack body (reverse_onto (params_of mangle resolve name params t) [])
          t.fn_returns_ptr
        && not (is_known mangle resolve (lookup name t.fn_returns_ptr)))) [
          | inl e ↦ let never : true ≡ false = rw (e, update_return) at h in cc
          | inr e ↦ rw (e, update_return) refl
        ]

  expr_unchanged :
      (e : Expr) (t : Types)
      → (update_expr mangle resolve e t).0 ≡ false
      → (update_expr mangle resolve e t).1 ≡ t
  unfolding update_expr
  expr_unchanged (Expr.define name params body _) t h =
      let (a, b) = or-parts (update_params mangle resolve name params body t).0 _ h in
      return_unchanged name params body _ b ∙ params_unchanged name params body t a
  expr_unchanged _ t h = refl

  round_unchanged :
      (es : List Expr) (t : Types)
      → (round mangle resolve es t).0 ≡ false
      → (round mangle resolve es t).1 ≡ t
  unfolding round
  round_unchanged [] t h = refl
  round_unchanged (e ∷ es) t h =
      let (a, b) = or-parts (update_expr mangle resolve (actual e) t).0 _ h in
      round_unchanged es _ b ∙ expr_unchanged (actual e) t a

  -- The types after so many iterations.
  abbrev pub after : ℕ → List Expr → Types → Types
  after zero es t = t
  after (suc k) es t = after k es (round mangle resolve es t).1

  -- Another iteration changes nothing.
  abbrev pub IsSettled : List Expr → Types → Type 0
  IsSettled es t = ((round mangle resolve es t).0 ≡ false) × ((round mangle resolve es t).1 ≡ t)

  iterate-settles :
      (n : ℕ) (es : List Expr) (t : Types)
      → IsSettled es (iterate mangle resolve n es t)
        ⊎ ((k : ℕ) → k < n → (round mangle resolve es (after k es t)).0 ≡ true)
  unfolding iterate
  iterate-settles zero es t = inr (λ k lt. absurd (omega arith))
  iterate-settles (suc n) es t = elim (Bool-cases (round mangle resolve es t).0) [
    | inr e ↦
        let same = round_unchanged es t e in
        inl (rw (e, iterate) (subst (IsSettled es) (sym same) (e, same)))
    | inl e ↦ elim (iterate-settles n es (round mangle resolve es t).1) [
      | inl settled ↦ inl (rw (e, iterate) settled)
      | inr busy ↦ inr (step e busy)
    ]
  ]
    where
      step :
          (round mangle resolve es t).0 ≡ true
          → ((k : ℕ)
              → k < n
              → (round mangle resolve es (after k es (round mangle resolve es t).1)).0 ≡ true)
          → (k : ℕ) → k < suc n
          → (round mangle resolve es (after k es t)).0 ≡ true
      step e busy zero lt = e
      step e busy (suc k) lt = busy k (omega arith)

  -- The inference ends with types that another iteration leaves as they are, or all of its hundred
  -- iterations changed something.
  pub analyze_module_types-settles :
      (exprs : List Expr) (t : Types)
      → IsSettled exprs (analyze_module_types mangle resolve exprs t)
        ⊎ ((k : ℕ)
            → k < 100
            → (round mangle resolve exprs (after k exprs (init_types mangle resolve exprs t))).0
              ≡ true)
  unfolding analyze_module_types
  analyze_module_types-settles exprs t =
      iterate-settles 100 exprs (init_types mangle resolve exprs t)
