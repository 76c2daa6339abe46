-- ===== src/Prelude/Search.antt =====
-- Rust's searches in a `&str`: prefixes, first and last occurrences, and parts between separators.
-- Where the code slices at a position, these give the text on the side that it uses.
use Prim.Native.Nat.{ℕ}
use mathlib.Core.Path.{◌≡◌, refl, ap, subst}
use mathlib.Core.Logic.{inl, inr}
use mathlib.Core.Bool.{Bool, true, false}
use mathlib.Core.List.{List, [], ◌∷◌, ◌++◌}
use mathlib.Core.Option.{Option, none, some, some-injective}
use native.Mathlib.Omega.{arith}
use llmlang.Prelude.Tests.{◌==◌, if◌then◌else◌, Bool-cases}
use llmlang.Prelude.Texts.{Text, text_eq, text_eq_iff}

-- `strip_prefix`
unfoldable pub strip_prefix : Text → Text → Option Text
strip_prefix [] s = some s
strip_prefix (p ∷ ps) [] = none
strip_prefix (p ∷ ps) (c ∷ cs) = if p == c then strip_prefix ps cs else none

-- `starts_with`
unfoldable pub starts_with : Text → Text → Bool
unfolding strip_prefix
starts_with p s = elim (strip_prefix p s) [ none ↦ false | some _ ↦ true ]

-- What stands behind the last occurrence, `&s[s.rfind(p)? + p.len()..]`.
unfoldable pub behind_last : Text → Text → Option Text
unfolding strip_prefix
behind_last p [] = strip_prefix p []
behind_last p (c ∷ cs) = elim (behind_last p cs) [
  | some rest ↦ some rest
  | none ↦ strip_prefix p (c ∷ cs)
]

abbrev onto : ℕ → Option Text → Option Text
onto c none = none
onto c (some s) = some (c ∷ s)

-- `strip_suffix`, and `ends_with` where it gives `some`.
unfoldable pub strip_suffix : Text → Text → Option Text
unfolding text_eq
strip_suffix p [] = if text_eq p [] then some [] else none
strip_suffix p (c ∷ cs) =
    let later = strip_suffix p cs in if text_eq p (c ∷ cs) then some [] else onto c later

-- What stands in front of the first occurrence, `&s[..s.find(p)?]`.
unfoldable pub before_first : Text → Text → Option Text
before_first p [] = if starts_with p [] then some [] else none
before_first p (c ∷ cs) =
    let later = before_first p cs in if starts_with p (c ∷ cs) then some [] else onto c later

abbrev onto_part : ℕ → Text × Option Text → Text × Option Text
onto_part c (part, rest) = (c ∷ part, rest)

-- The part in front of the first separator, and what is behind it, if there is one.
unfoldable pub split_once : ℕ → Text → Text × Option Text
split_once sep [] = ([], none)
split_once sep (c ∷ cs) =
    let later = split_once sep cs in if c == sep then ([], some cs) else onto_part c later

-- `contains` of another text.
unfoldable pub contains_text : Text → Text → Bool
unfolding before_first
contains_text p s = elim (before_first p s) [ none ↦ false | some _ ↦ true ]

unfoldable pub drop_while : (ℕ → Bool) → Text → Text
drop_while test [] = []
drop_while test (c ∷ cs) = if test c then drop_while test cs else c ∷ cs

-- `trim_end_matches`
unfoldable pub drop_end : (ℕ → Bool) → Text → Text
drop_end test [] = []
drop_end test (c ∷ cs) = elim (drop_end test cs) [
  | [] ↦ if test c then [] else c ∷ []
  | d ∷ ds ↦ c ∷ d ∷ ds
]

-- `join`
unfoldable pub join : Text → List Text → Text
join sep [] = []
join sep (t ∷ []) = t
join sep (t ∷ u ∷ ts) = t ++ (sep ++ join sep (u ∷ ts))

pub strip_prefix-append : (p s : Text) → strip_prefix p (p ++ s) ≡ some s
unfolding strip_prefix
strip_prefix-append [] s = refl
strip_prefix-append (c ∷ p) s = ground (arith, strip_prefix-append p s)

-- What a text ends with is found by the search from the end, whatever stands in front of it.
pub behind_last-append :
    (p front s rest : Text) → behind_last p s ≡ some rest → behind_last p (front ++ s) ≡ some rest
unfolding behind_last
behind_last-append p [] s rest h = h
behind_last-append p (c ∷ front) s rest h =
    rw (behind_last-append p front s rest h, behind_last) refl

ends_here :
    (q p s : Text) (later : Option Text)
    → (later ≡ some s → s ++ q ≡ p)
    → (if text_eq q p then some [] else later) ≡ some s
    → s ++ q ≡ p
ends_here q p s later go h = elim (Bool-cases (text_eq q p)) [
  | inl e ↦
      let none_left : [] ≡ s =
        some-injective _ _ (subst (λ b. (if b then some [] else later) ≡ some s) e h) in
      subst (λ (r : Text). r ++ q ≡ p) none_left ((text_eq_iff q p).0 e)
  | inr e ↦ go (subst (λ b. (if b then some [] else later) ≡ some s) e h)
]

onto-append :
    (c : ℕ) (q p s : Text) (o : Option Text)
    → ((r : Text) → o ≡ some r → r ++ q ≡ p)
    → onto c o ≡ some s
    → s ++ q ≡ c ∷ p
onto-append c q p s none go h = absurd (cc)
onto-append c q p s (some r) go h =
    subst (λ (t : Text). t ++ q ≡ c ∷ p) (some-injective _ _ h) (ap (◌∷◌ c) (go r refl))

pub strip_suffix-append : (q p s : Text) → strip_suffix q p ≡ some s → s ++ q ≡ p
unfolding strip_suffix
strip_suffix-append q [] s h = ends_here q [] s none (λ z. absurd (cc)) h
strip_suffix-append q (c ∷ p) s h =
    ends_here q (c ∷ p) s _ (onto-append c q p s _ (strip_suffix-append q p)) h
