-- ===== src/Prelude/Members.antt =====
-- What stands in a list, and the Boolean searches for it.
use mathlib.Core.Path.{◌≡◌, refl, sym, subst}
use mathlib.Core.Logic.{◌↔◌, ◌⊎◌, inl, inr}
use mathlib.Core.Bool.{Bool, true, false, ◌||◌}
use mathlib.Core.List.{List, [], ◌∷◌, ◌++◌}
use mathlib.Core.List.Memᴰ.{Memᴰ}
use llmlang.Prelude.Lists.{All, any}
use llmlang.Prelude.Texts.{Text, text_eq, text_eq_iff}

pub or-true : (b : Bool) → (b || true) ≡ true
or-true true = refl
or-true false = refl

pub or-either : (b c : Bool) → (b || c) ≡ true → (b ≡ true) ⊎ (c ≡ true)
or-either true c h = inl refl
or-either false c h = inr h

pub any-Mem : (ts : List Text) (n : Text) → (any (λ t. text_eq t n) ts ≡ true) ↔ Memᴰ n ts
any-Mem ts n = (into ts, from ts)
  where
    into : (ts : List Text) → any (λ t. text_eq t n) ts ≡ true → Memᴰ n ts
    into [] h = cc
    into (t ∷ ts) h = elim (or-either _ _ h) [
      | inl e ↦ Memᴰ.head (sym ((text_eq_iff t n).0 e))
      | inr later ↦ Memᴰ.tail (into ts later)
    ]

    from : (ts : List Text) → Memᴰ n ts → any (λ t. text_eq t n) ts ≡ true
    from [] m = elim m [ ]
    from (t ∷ ts) (Memᴰ.head same) = rw ((text_eq_iff t n).1 (sym same)) refl
    from (t ∷ ts) (Memᴰ.tail m) = rw (from ts m) (or-true _)

module _ {A : Type 0} where
  pub All-Mem : (P : A → Type 0) (xs : List A) (x : A) → All P xs → Memᴰ x xs → P x
  All-Mem P [] x h m = elim m [ ]
  All-Mem P (y ∷ ys) x h (Memᴰ.head same) = subst P (sym same) h.0
  All-Mem P (y ∷ ys) x h (Memᴰ.tail m) = All-Mem P ys x h.1 m

  pub Mem-append : (xs ys : List A) (x : A) → Memᴰ x (xs ++ ys) ↔ (Memᴰ x xs ⊎ Memᴰ x ys)
  Mem-append xs ys x = (into xs, from xs)
    where
      into : (xs : List A) → Memᴰ x (xs ++ ys) → Memᴰ x xs ⊎ Memᴰ x ys
      into [] m = inr m
      into (z ∷ zs) (Memᴰ.head same) = inl (Memᴰ.head same)
      into (z ∷ zs) (Memᴰ.tail m) = elim (into zs m) [
        | inl here ↦ inl (Memᴰ.tail here)
        | inr there ↦ inr there
      ]

      from : (xs : List A) → Memᴰ x xs ⊎ Memᴰ x ys → Memᴰ x (xs ++ ys)
      from [] (inl m) = elim m [ ]
      from [] (inr m) = m
      from (z ∷ zs) (inl (Memᴰ.head same)) = Memᴰ.head same
      from (z ∷ zs) (inl (Memᴰ.tail m)) = Memᴰ.tail (from zs (inl m))
      from (z ∷ zs) (inr m) = Memᴰ.tail (from zs (inr m))
