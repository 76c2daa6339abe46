-- ===== src/Codegen/Cleaning.antt =====
-- src/compiler/codegen/symbol.rs `emit_signature_file`: the names that it leaves out, and what is left of the
-- others.
use llmlang.Prelude.{
  ◌≡◌, ◌≢◌, refl, sym, ap, ◌∙◌, ◌⊎◌, inl, inr, ◌↔◌, true, false, Text, codes, text_eq_iff, [], ◌∷◌,
  ◌++◌, Option, none, some, Bool-cases, Option-cases, strip_prefix, starts_with, arith,
  strip_prefix-append, ◌==◌, ==_iff,
}
use llmlang.Prelude.Members.{or-either}
use mathlib.Core.Option.{some-injective}
use llmlang.Codegen.Names.{clean_name, is_internal}

-- The name without the module's prefix, or the name itself if it does not begin with it.
abbrev pub Cleans : Text → Text → Text → Type 0
Cleans prefix full clean =
    (full ≡ prefix ++ clean) ⊎ (((rest : Text) → full ≢ prefix ++ rest) × (clean ≡ full))

abbrev Begins : Text → Text → Type 0
Begins p s = (rest : Text) × (s ≡ p ++ rest)

-- A function that is not listed.
abbrev pub IsHidden : Text → Type 0
IsHidden name =
    (name ≡ codes "main")
    ⊎ ((rest : Text) × (name ≡ codes "trap_" ++ rest))
    ⊎ ((rest : Text) × (name ≡ codes "parallel_" ++ rest))
    ⊎ ((rest : Text) × (name ≡ codes "__llm_" ++ rest))

strip_prefix-some : (p s rest : Text) → strip_prefix p s ≡ some rest → s ≡ p ++ rest
unfolding strip_prefix
strip_prefix-some [] s rest h = some-injective _ _ h
strip_prefix-some (c ∷ p) [] rest h = cc
strip_prefix-some (c ∷ p) (d ∷ s) rest h = elim (Bool-cases (c == d)) [
  | inl e ↦
      let later = strip_prefix-some p s rest (sym (rw e refl) ∙ h) in
      rw (sym ((==_iff c d).0 e), later) refl
  | inr e ↦ let clash : ◌≡◌ {A = Option Text} none (some rest) = sym (rw e refl) ∙ h in cc
]

starts_with-Begins : (p s : Text) → (starts_with p s ≡ true) ↔ Begins p s
unfolding starts_with
starts_with-Begins p s = (into, from)
  where
    into : starts_with p s ≡ true → Begins p s
    into h = elim (Option-cases (strip_prefix p s)) [
      | inl e ↦ let clash : false ≡ true = sym (rw (e, starts_with) refl) ∙ h in cc
      | inr (rest, e) ↦ (rest, strip_prefix-some p s rest e)
    ]

    from : Begins p s → starts_with p s ≡ true
    from (rest, e) = ap (starts_with p) e ∙ rw (strip_prefix-append p rest, starts_with) refl

is_internal-IsHidden : (name : Text) → (is_internal name ≡ true) ↔ IsHidden name
unfolding is_internal
is_internal-IsHidden name = (into, from)
  where
    into : is_internal name ≡ true → IsHidden name
    into h = elim (or-either _ _ h) [
      | inr e ↦ inr (inr (inr ((starts_with-Begins (codes "__llm_") name).0 e)))
      | inl h₁ ↦ elim (or-either _ _ h₁) [
        | inr e ↦ inr (inr (inl ((starts_with-Begins (codes "parallel_") name).0 e)))
        | inl h₂ ↦ elim (or-either _ _ h₂) [
          | inr e ↦ inr (inl ((starts_with-Begins (codes "trap_") name).0 e))
          | inl e ↦ inl ((text_eq_iff name (codes "main")).0 e)
        ]
      ]
    ]

    from : IsHidden name → is_internal name ≡ true
    from (inl e) = rw ((text_eq_iff name (codes "main")).1 e) refl
    from (inr (inl e)) =
        let here = (starts_with-Begins (codes "trap_") name).1 e in ground (arith, here)
    from (inr (inr (inl e))) =
        let here = (starts_with-Begins (codes "parallel_") name).1 e in ground (arith, here)
    from (inr (inr (inr e))) =
        let here = (starts_with-Begins (codes "__llm_") name).1 e in ground (arith, here)

pub clean_name_iff :
    (prefix full name : Text) → (clean_name prefix full ≡ name) ↔ Cleans prefix full name
unfolding clean_name
clean_name_iff [] full name = (λ e. inl e, from)
  where
    from : Cleans [] full name → full ≡ name
    from (inl e) = e
    from (inr (_, e)) = sym e
clean_name_iff (c ∷ p) full name = elim (Option-cases (strip_prefix (c ∷ p) full)) [
  | inl e ↦ rw (e, clean_name) (λ same. inr (other e, sym same), from-none e)
  | inr (rest, e) ↦
      rw (e, clean_name)
        (
          λ same. inl (strip_prefix-some (c ∷ p) full rest e ∙ ap (λ r. (c ∷ p) ++ r) same),
          from-some rest e,
        )
]
  where
    other : strip_prefix (c ∷ p) full ≡ none → (rest : Text) → full ≢ (c ∷ p) ++ rest
    other e rest same =
        let clash = sym e ∙ (ap (strip_prefix (c ∷ p)) same ∙ strip_prefix-append (c ∷ p) rest) in
        cc

    from-none : strip_prefix (c ∷ p) full ≡ none → Cleans (c ∷ p) full name → full ≡ name
    from-none e (inl same) = absurd (other e name same)
    from-none e (inr (_, same)) = sym same

    from-some :
        (rest : Text)
        → strip_prefix (c ∷ p) full ≡ some rest
        → Cleans (c ∷ p) full name
        → rest ≡ name
    from-some rest e (inl same) =
        some-injective _ _
          (sym e ∙ (ap (strip_prefix (c ∷ p)) same ∙ strip_prefix-append (c ∷ p) name))
    from-some rest e (inr (never, _)) = absurd (never rest (strip_prefix-some (c ∷ p) full rest e))

pub not-IsHidden : (name : Text) → (is_internal name ≡ false) ↔ (IsHidden name → ⊥)
not-IsHidden name = (into, from)
  where
    into : is_internal name ≡ false → IsHidden name → ⊥
    into e h = let clash : false ≡ true = sym e ∙ (is_internal-IsHidden name).1 h in cc

    from : (IsHidden name → ⊥) → is_internal name ≡ false
    from h = elim (Bool-cases (is_internal name)) [
      | inl e ↦ absurd (h ((is_internal-IsHidden name).0 e))
      | inr e ↦ e
    ]
