-- ===== src/Prelude/Appends.antt =====
-- A call that writes behind what a vector or a string holds already.
use mathlib.Core.Path.{◌≡◌, refl, sym, ap, ◌∙◌}
use mathlib.Core.List.{List, [], ◌++◌, append-nil, append_assoc}

-- What the call writes does not depend on what was there, and stands behind it.
pub record Appends {ℓ} {A : Type ℓ} (p : List A → List A) : Type ℓ where
  pub at : (xs : List A) → p xs ≡ xs ++ p []

module _ {ℓ} {A : Type ℓ} where
  pub Appends-nothing : Appends (λ (xs : List A). xs)
  Appends-nothing = record { at = λ xs. sym (append-nil xs) }

  pub Appends-push : (ys : List A) → Appends (λ (xs : List A). xs ++ ys)
  Appends-push ys = record { at = λ xs. refl }

  pub Appends-then : (p q : List A → List A) → Appends p → Appends q → Appends (λ xs. q (p xs))
  Appends-then p q hp hq = record {
    at = λ xs.
        ap q (hp.at xs)
        ∙ hq.at (xs ++ p [])
        ∙ append_assoc xs (p []) (q [])
        ∙ ap (λ ys. xs ++ ys) (sym (hq.at (p [])));
  }
