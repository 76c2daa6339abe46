-- ===== src/Analysis/Sets.antt =====
-- The set of reachable names and the stack of src/compiler/analysis/mod.rs `prune_dead_code`.
use llmlang.Prelude.{
  ◌≡◌, refl, sym, subst, ◌⊎◌, inl, inr, true, false, Text, text_eq, text_eq_iff, text_eq_self, List,
  [], ◌∷◌, Option, none, some, arith, Bool-cases, Memᴰ,
}
use llmlang.Ast.{Expr}
use llmlang.Analysis.Prune.{contains, insert, mark_calls, push_new, is_new, defined_name}

-- The name is in the set.
abbrev pub In : Text → List Text → Type 0
In name set = contains name set ≡ true

pub In-insert_self : (n : Text) (set : List Text) → In n (insert n set)
unfolding insert contains
In-insert_self n set = ground (arith, text_eq_self n)

pub In-insert : (m n : Text) (set : List Text) → In m set → In m (insert n set)
unfolding insert contains
In-insert m n set h = ground arith

pub In-insert-cases : (m n : Text) (set : List Text) → In m (insert n set) → (m ≡ n) ⊎ In m set
unfolding insert contains
In-insert-cases m n set h = elim (Bool-cases (text_eq m n)) [
  | inl e ↦ inl ((text_eq_iff m n).0 e)
  | inr e ↦ inr (ground arith)
]

pub In-mark : (m : Text) (calls set : List Text) → In m set → In m (mark_calls calls set)
unfolding mark_calls
In-mark m [] set h = h
In-mark m (c ∷ cs) set h = In-mark m cs (insert c set) (In-insert m c set h)

pub In-mark_self : (m : Text) (calls set : List Text) → Memᴰ m calls → In m (mark_calls calls set)
unfolding mark_calls
In-mark_self m [] set h = elim h [ ]
In-mark_self m (c ∷ cs) set (Memᴰ.head e) =
    In-mark m cs (insert c set) (subst (λ n. In m (insert n set)) e (In-insert_self m set))
In-mark_self m (c ∷ cs) set (Memᴰ.tail h) = In-mark_self m cs (insert c set) h

pub In-mark-cases :
    (m : Text) (calls set : List Text) → In m (mark_calls calls set) → Memᴰ m calls ⊎ In m set
unfolding mark_calls
In-mark-cases m [] set h = inr h
In-mark-cases m (c ∷ cs) set h = elim (In-mark-cases m cs (insert c set) h) [
  | inl later ↦ inl (Memᴰ.tail later)
  | inr here ↦ elim (In-insert-cases m c set here) [ inl e ↦ inl (Memᴰ.head e) | inr old ↦ inr old ]
]

module _ (r v : List Text) where
  pub Mem-push_new :
      {e : Expr} (ds stack : List Expr) → Memᴰ e stack → Memᴰ e (push_new ds r v stack)
  unfolding push_new
  Mem-push_new [] stack h = h
  Mem-push_new (d ∷ ds) stack h = elim (Bool-cases (is_new (defined_name d) r v)) [
    | inl e ↦ rw (e, push_new) (Mem-push_new ds (d ∷ stack) (Memᴰ.tail h))
    | inr e ↦ rw (e, push_new) (Mem-push_new ds stack h)
  ]

  -- A definition whose name is reachable and not visited is pushed.
  pub Mem-push_new_self :
      {e : Expr} (ds stack : List Expr)
      → is_new (defined_name e) r v ≡ true
      → Memᴰ e ds
      → Memᴰ e (push_new ds r v stack)
  unfolding push_new
  Mem-push_new_self [] stack new h = elim h [ ]
  Mem-push_new_self {e} (d ∷ ds) stack new (Memᴰ.head same) =
      let here : is_new (defined_name d) r v ≡ true =
        subst (λ (o : Expr). is_new (defined_name o) r v ≡ true) same new in
      rw (here, push_new) (Mem-push_new ds (d ∷ stack) (Memᴰ.head same))
  Mem-push_new_self {e} (d ∷ ds) stack new (Memᴰ.tail h) =
      elim (Bool-cases (is_new (defined_name d) r v)) [
        | inl t ↦ rw (t, push_new) (Mem-push_new_self ds (d ∷ stack) new h)
        | inr t ↦ rw (t, push_new) (Mem-push_new_self ds stack new h)
      ]

  pub Mem-push_new-cases :
      {e : Expr} (ds stack : List Expr)
      → Memᴰ e (push_new ds r v stack)
      → Memᴰ e stack ⊎ (Memᴰ e ds × (is_new (defined_name e) r v ≡ true))
  unfolding push_new
  Mem-push_new-cases [] stack h = inl h
  Mem-push_new-cases {e} (d ∷ ds) stack h = elim (Bool-cases (is_new (defined_name d) r v)) [
    | inl t ↦ pushed t (Mem-push_new-cases ds (d ∷ stack) (rw (t, push_new) at h))
    | inr t ↦ later (Mem-push_new-cases ds stack (rw (t, push_new) at h))
  ]
    where
      later :
          Memᴰ e stack ⊎ (Memᴰ e ds × (is_new (defined_name e) r v ≡ true))
          → Memᴰ e stack ⊎ (Memᴰ e (d ∷ ds) × (is_new (defined_name e) r v ≡ true))
      later (inl m) = inl m
      later (inr (m, new)) = inr (Memᴰ.tail m, new)

      pushed :
          is_new (defined_name d) r v ≡ true
          → Memᴰ e (d ∷ stack) ⊎ (Memᴰ e ds × (is_new (defined_name e) r v ≡ true))
          → Memᴰ e stack ⊎ (Memᴰ e (d ∷ ds) × (is_new (defined_name e) r v ≡ true))
      pushed t (inl (Memᴰ.head same)) =
          inr
            (Memᴰ.head same, subst (λ (o : Expr). is_new (defined_name o) r v ≡ true) (sym same) t)
      pushed t (inl (Memᴰ.tail m)) = inl m
      pushed t (inr (m, new)) = inr (Memᴰ.tail m, new)

-- What makes a definition new.
pub is_new-parts :
    (o : Option Text) (r v : List Text)
    → is_new o r v ≡ true
    → (n : Text) × (o ≡ some n) × In n r × (contains n v ≡ false)
is_new-parts none r v h = cc
is_new-parts (some n) r v h = (n, refl, ground arith, ground arith)

pub is_new-of :
    (n : Text) (r v : List Text) → In n r → contains n v ≡ false → is_new (some n) r v ≡ true
is_new-of n r v h e = ground arith
