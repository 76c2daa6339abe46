-- ===== src/Codegen/Entries.antt =====
-- src/compiler/codegen/symbol.rs `emit_signature_file`: which entries are listed.
use llmlang.Prelude.{
  ℕ, ◌≡◌, sym, ap, ◌∙◌, inl, inr, ◌↔◌, true, false, Text, List, [], ◌∷◌, length, Memᴰ, Bool-cases,
}
use llmlang.Prelude.Members.{any-Mem}
use llmlang.Codegen.Names.{
  Template, clean_name, contains_name, exported_entries, is_internal, without_internal, arities,
}
use llmlang.Codegen.Cleaning.{Cleans, clean_name_iff}

pair : {A B : Type 0} {a c : A} {b d : B} → a ≡ c → b ≡ d → ◌≡◌ {A = A × B} (a, b) (c, d)
pair {A} {B} {a} {c} {b} {d} e h = ap (λ (x : A). (x, b)) e ∙ ap (λ (y : B). (c, y)) h

module _ {A : Type 0} (exports : List Text) (prefix : Text) where
  -- The module has the entry under a full name, and exports the name without the prefix.
  abbrev pub Exported : List (Text × A) → Text → A → Type 0
  Exported entries name a =
      (full : Text) × Memᴰ (full, a) entries × Cleans prefix full name × Memᴰ name exports

  entries-step :
      (full : Text) (b : A) (entries : List (Text × A)) (name : Text) (a : A)
      → (Memᴰ (name, a) (exported_entries exports prefix entries) ↔ Exported entries name a)
      → Memᴰ (name, a) (exported_entries exports prefix ((full, b) ∷ entries))
        ↔ Exported ((full, b) ∷ entries) name a
  unfolding exported_entries
  entries-step full b entries name a later =
      elim (Bool-cases (contains_name exports (clean_name prefix full))) [
        | inl e ↦ rw (e, exported_entries) (listed e)
        | inr e ↦ rw (e, exported_entries) (unlisted e)
      ]
    where
      deeper : Exported entries name a → Exported ((full, b) ∷ entries) name a
      deeper (f, m, clean, out) = (f, Memᴰ.tail m, clean, out)

      unlisted :
          contains_name exports (clean_name prefix full) ≡ false
          → Memᴰ (name, a) (exported_entries exports prefix entries)
            ↔ Exported ((full, b) ∷ entries) name a
      unlisted e = (λ m. deeper (later.0 m), back)
        where
          back :
              Exported ((full, b) ∷ entries) name a
              → Memᴰ (name, a) (exported_entries exports prefix entries)
          back (f, Memᴰ.tail m, clean, out) = later.1 (f, m, clean, out)
          back (f, Memᴰ.head same, clean, out) =
              let named : clean_name prefix full ≡ name =
                ap (clean_name prefix) (sym (ap (λ (p : Text × A). p.0) same))
                ∙ (clean_name_iff prefix f name).1 clean in
              let found = (any-Mem exports name).1 out in
              let clash : false ≡ true = sym e ∙ (ap (contains_name exports) named ∙ found) in cc

      listed :
          contains_name exports (clean_name prefix full) ≡ true
          → Memᴰ (name, a) ((clean_name prefix full, b) ∷ exported_entries exports prefix entries)
            ↔ Exported ((full, b) ∷ entries) name a
      listed e = (into, back)
        where
          into :
              Memᴰ (name, a) ((clean_name prefix full, b) ∷ exported_entries exports prefix entries)
              → Exported ((full, b) ∷ entries) name a
          into (Memᴰ.tail m) = deeper (later.0 m)
          into (Memᴰ.head same) =
              let named : clean_name prefix full ≡ name = sym (ap (λ (p : Text × A). p.0) same) in
              let value : a ≡ b = ap (λ (p : Text × A). p.1) same in
              (
                full,
                Memᴰ.head (ap (λ (x : A). (full, x)) value),
                (clean_name_iff prefix full name).0 named,
                (any-Mem exports name).0 (ap (contains_name exports) (sym named) ∙ e),
              )

          back :
              Exported ((full, b) ∷ entries) name a
              → Memᴰ
                  (name, a)
                  ((clean_name prefix full, b) ∷ exported_entries exports prefix entries)
          back (f, Memᴰ.tail m, clean, out) = Memᴰ.tail (later.1 (f, m, clean, out))
          back (f, Memᴰ.head same, clean, out) =
              let named : clean_name prefix full ≡ name =
                ap (clean_name prefix) (sym (ap (λ (p : Text × A). p.0) same))
                ∙ (clean_name_iff prefix f name).1 clean in
              let value : a ≡ b = ap (λ (p : Text × A). p.1) same in
              Memᴰ.head (pair (sym named) value)

  pub entries-Mem :
      (entries : List (Text × A)) (name : Text) (a : A)
      → Memᴰ (name, a) (exported_entries exports prefix entries) ↔ Exported entries name a
  unfolding exported_entries
  entries-Mem [] name a = (λ m. elim m [ ], λ (full, m, _, _). elim m [ ])
  entries-Mem ((full, b) ∷ entries) name a =
      entries-step full b entries name a (entries-Mem entries name a)

without-step :
    (f : Text) (k : ℕ) (fs : List (Text × ℕ)) (name : Text) (n : ℕ)
    → (Memᴰ (name, n) (without_internal fs) ↔ (Memᴰ (name, n) fs × (is_internal name ≡ false)))
    → Memᴰ (name, n) (without_internal ((f, k) ∷ fs))
      ↔ (Memᴰ (name, n) ((f, k) ∷ fs) × (is_internal name ≡ false))
unfolding without_internal
without-step f k fs name n later = elim (Bool-cases (is_internal f)) [
  | inl e ↦
      rw (e, without_internal) (λ m. let (at, ok) = later.0 m in (Memᴰ.tail at, ok), dropped e)
  | inr e ↦ rw (e, without_internal) (kept e, back)
]
  where
    dropped :
        is_internal f ≡ true
        → Memᴰ (name, n) ((f, k) ∷ fs) × (is_internal name ≡ false)
        → Memᴰ (name, n) (without_internal fs)
    dropped e (Memᴰ.tail m, ok) = later.1 (m, ok)
    dropped e (Memᴰ.head same, ok) =
        let clash : true ≡ false =
          sym e ∙ (ap is_internal (sym (ap (λ (p : Text × ℕ). p.0) same)) ∙ ok) in
        cc

    kept :
        is_internal f ≡ false
        → Memᴰ (name, n) ((f, k) ∷ without_internal fs)
        → Memᴰ (name, n) ((f, k) ∷ fs) × (is_internal name ≡ false)
    kept e (Memᴰ.head same) = (Memᴰ.head same, ap is_internal (ap (λ (p : Text × ℕ). p.0) same) ∙ e)
    kept e (Memᴰ.tail m) = let (at, ok) = later.0 m in (Memᴰ.tail at, ok)

    back :
        Memᴰ (name, n) ((f, k) ∷ fs) × (is_internal name ≡ false)
        → Memᴰ (name, n) ((f, k) ∷ without_internal fs)
    back (Memᴰ.head same, ok) = Memᴰ.head same
    back (Memᴰ.tail m, ok) = Memᴰ.tail (later.1 (m, ok))

pub without-Mem :
    (fs : List (Text × ℕ)) (name : Text) (n : ℕ)
    → Memᴰ (name, n) (without_internal fs) ↔ (Memᴰ (name, n) fs × (is_internal name ≡ false))
unfolding without_internal
without-Mem [] name n = (λ m. elim m [ ], λ (m, _). elim m [ ])
without-Mem ((f, k) ∷ fs) name n = without-step f k fs name n (without-Mem fs name n)

arities-step :
    (f : Text) (t : Template) (ts : List (Text × Template)) (name : Text) (n : ℕ)
    → (Memᴰ (name, n) (arities ts) ↔ ((u : Template) × Memᴰ (name, u) ts × (length u.params ≡ n)))
    → Memᴰ (name, n) ((f, length t.params) ∷ arities ts)
      ↔ ((u : Template) × Memᴰ (name, u) ((f, t) ∷ ts) × (length u.params ≡ n))
arities-step f t ts name n later = (into, back)
  where
    into :
        Memᴰ (name, n) ((f, length t.params) ∷ arities ts)
        → (u : Template) × Memᴰ (name, u) ((f, t) ∷ ts) × (length u.params ≡ n)
    into (Memᴰ.head same) = (
      t,
      Memᴰ.head (ap (λ (x : Text). (x, t)) (ap (λ (p : Text × ℕ). p.0) same)),
      sym (ap (λ (p : Text × ℕ). p.1) same),
    )
    into (Memᴰ.tail m) = let (u, at, count) = later.0 m in (u, Memᴰ.tail at, count)

    back :
        (u : Template) × Memᴰ (name, u) ((f, t) ∷ ts) × (length u.params ≡ n)
        → Memᴰ (name, n) ((f, length t.params) ∷ arities ts)
    back (u, Memᴰ.head same, count) = Memᴰ.head (
        pair (ap (λ (p : Text × Template). p.0) same)
          (sym count ∙ ap (λ (p : Text × Template). length p.1.params) same))
    back (u, Memᴰ.tail m, count) = Memᴰ.tail (later.1 (u, m, count))

pub arities-Mem :
    (ts : List (Text × Template)) (name : Text) (n : ℕ)
    → Memᴰ (name, n) (arities ts) ↔ ((t : Template) × Memᴰ (name, t) ts × (length t.params ≡ n))
arities-Mem [] name n = (λ m. elim m [ ], λ (t, m, _). elim m [ ])
arities-Mem ((f, t) ∷ ts) name n = arities-step f t ts name n (arities-Mem ts name n)
