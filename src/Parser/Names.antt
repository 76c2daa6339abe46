-- ===== src/Parser/Names.antt =====
-- src/compiler/parser/mod.rs: the index of a variable in the scopes.
use llmlang.Prelude.{
  ℕ, zero, suc, ◌+◌, ◌<◌, ◌≡◌, ◌≢◌, refl, ap, sym, ◌∙◌, subst, inl, inr, false, Text, text_eq,
  text_eq_iff, List, [], ◌∷◌, ◌++◌, none, some, length, get_elem?, arith, Bool-cases,
}
use mathlib.Core.Option.{some-injective}
use llmlang.Parser.State.{resolve_in, resolve_from, resolve_variable}

-- All variables in scope, the innermost first.
abbrev pub in_scope : List (List Text) → List Text
in_scope [] = []
in_scope (scope ∷ scopes) = scope ++ in_scope scopes

-- What the lookup in one scope leaves to the next.
resolve_in-append :
    (scope rest : List Text) (name : Text) (i : ℕ)
    → resolve_in (scope ++ rest) name i ≡ elim (resolve_in scope name i) [
      | some j ↦ some j
      | none ↦ resolve_in rest name (i + length scope)
    ]
unfolding resolve_in
resolve_in-append [] rest name i = ap (resolve_in rest name) (omega arith)
resolve_in-append (var ∷ scope) rest name i = elim (Bool-cases (text_eq var name)) [
  | inl e ↦ rw (e, resolve_in)
  | inr e ↦
      rw (e, resolve_in)
        (resolve_in-append scope rest name (i + 1)
          ∙ ap
              (λ n. elim (resolve_in scope name (i + 1)) [
                | some j ↦ some j
                | none ↦ resolve_in rest name n
              ])
              (omega arith))
]

resolve_from-in_scope :
    (scopes : List (List Text)) (name : Text) (i : ℕ)
    → resolve_from scopes name i ≡ resolve_in (in_scope scopes) name i
unfolding resolve_from resolve_in
resolve_from-in_scope [] name i = refl
resolve_from-in_scope (scope ∷ scopes) name i =
    ap (λ r. elim (resolve_in scope name i) [ some j ↦ some j | none ↦ r ])
      (resolve_from-in_scope scopes name (i + length scope))
    ∙ sym (resolve_in-append scope (in_scope scopes) name i)

differ : (a b : Text) → text_eq a b ≡ false → a ≢ b
differ a b e same = let t = (text_eq_iff a b).1 same in cc

-- The name stands at `j` behind `i`, and at no place in front.
abbrev pub FirstAt : List Text → Text → ℕ → Type 0
FirstAt vars name j =
    (get_elem? vars j ≡ some name) × ((k : ℕ) → k < j → get_elem? vars k ≢ some name)

First-later :
    (var : Text) (vars : List Text) (name : Text) (j : ℕ)
    → var ≢ name
    → FirstAt vars name j
    → FirstAt (var ∷ vars) name (suc j)
First-later var vars name j ne h = (h.0, λ k lt. before k lt)
  where
    before : (k : ℕ) → k < suc j → get_elem? (var ∷ vars) k ≢ some name
    before zero lt e = ne (some-injective _ _ e)
    before (suc k) lt e = h.1 k (omega arith) e

resolve_in-First :
    (vars : List Text) (name : Text) (i r : ℕ)
    → resolve_in vars name i ≡ some r
    → (j : ℕ) × (r ≡ i + j) × FirstAt vars name j
unfolding resolve_in
resolve_in-First [] name i r h = cc
resolve_in-First (var ∷ vars) name i r h = elim (Bool-cases (text_eq var name)) [
  | inl e ↦
      let found : i ≡ r = some-injective _ _ (rw (e, resolve_in) at h) in
      (0, omega arith, (ap some ((text_eq_iff var name).0 e), λ k lt. absurd (omega arith)))
  | inr e ↦
      let (j, at, first) = resolve_in-First vars name (i + 1) r (rw (e, resolve_in) at h) in
      (suc j, omega arith, First-later var vars name j (differ var name e) first)
]

none-later :
    (var : Text) (vars : List Text) (name : Text) (k : ℕ)
    → get_elem? (var ∷ vars) k ≡ some name
    → var ≢ name
    → ((j : ℕ) → get_elem? vars j ≢ some name)
    → ⊥
none-later var vars name zero e ne later = ne (some-injective _ _ e)
none-later var vars name (suc k) e ne later = later k e

resolve_in-none :
    (vars : List Text) (name : Text) (i k : ℕ)
    → resolve_in vars name i ≡ none
    → get_elem? vars k ≢ some name
unfolding resolve_in
resolve_in-none [] name i k h e = cc
resolve_in-none (var ∷ vars) name i k h e = elim (Bool-cases (text_eq var name)) as (λ _. ⊥) [
  | inl t ↦ let never : some i ≡ none = rw (t, resolve_in) at h in cc
  | inr t ↦
      none-later var vars name k e (differ var name t)
        λ j. resolve_in-none vars name (i + 1) j (rw (t, resolve_in) at h)
]

-- The index of a name is that of its innermost variable among all that are in scope; a name without
-- an index is no variable in scope.
pub resolve_variable-FirstAt :
    (scopes : List (List Text)) (name : Text)
    → ((i : ℕ) → resolve_variable scopes name ≡ some i → FirstAt (in_scope scopes) name i)
      × ((k : ℕ) → resolve_variable scopes name ≡ none → get_elem? (in_scope scopes) k ≢ some name)
unfolding resolve_variable
resolve_variable-FirstAt scopes name =
    let flat = resolve_from-in_scope scopes name 0 in
    (
      λ i h. found i (sym flat ∙ h),
      λ k h. resolve_in-none (in_scope scopes) name 0 k (sym flat ∙ h),
    )
  where
    found :
        (i : ℕ) → resolve_in (in_scope scopes) name 0 ≡ some i → FirstAt (in_scope scopes) name i
    found i h =
        let (j, at, first) = resolve_in-First (in_scope scopes) name 0 i h in
        subst (FirstAt (in_scope scopes) name) (omega arith) first
