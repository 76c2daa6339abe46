-- ===== src/Analysis/Roots.antt =====
-- The roots of src/compiler/analysis/mod.rs `prune_dead_code`, and what its loop starts from.
use llmlang.Prelude.{
  suc, ◌≤◌, ◌≡◌, refl, sym, ap, ◌∙◌, ◌+◌, subst, ◌⊎◌, inl, inr, ◌||◌, Text, codes, text_eq, List,
  [], ◌∷◌, Option, none, some, if◌then◌else◌, length, arith, Memᴰ,
}
use llmlang.Ast.{Expr}
use llmlang.Analysis.Prune.{insert, unwrap_metadata, define_name, Search, root_step, find_roots}
use llmlang.Analysis.Sets.{In, In-insert, In-insert_self, In-insert-cases}

-- `main`, or exported.
abbrev pub root_of : Expr → Option Text
root_of (Expr.define name _ _ exported) =
    if text_eq name (codes "main") || exported then some name else none
root_of (Expr.shape name _ exported) = if exported then some name else none
root_of _ = none

abbrev pub root_name : Expr → Option Text
root_name e = root_of (unwrap_metadata e)

abbrev add_root : Option Text → List Text → List Text
add_root none r = r
add_root (some n) r = insert n r

abbrev push_root : Expr → Option Text → Option Text → List Expr → List Expr
push_root e (some _) (some _) stack = e ∷ stack
push_root e _ _ stack = stack

step-reachable :
    (e x : Expr) (s : Search) → (root_step e x s).reachable ≡ add_root (root_of x) s.reachable
unfolding root_step
step-reachable e (Expr.define name _ _ exported) s = ground arith
step-reachable e (Expr.shape name _ exported) s = ground arith
step-reachable e _ s = refl

step-to_visit :
    (e x : Expr) (s : Search)
    → (root_step e x s).to_visit ≡ push_root e (define_name x) (root_of x) s.to_visit
unfolding root_step
step-to_visit e (Expr.define name _ _ exported) s = ground arith
step-to_visit e (Expr.shape name _ exported) s = ground arith
step-to_visit e _ s = refl

step-visited : (e x : Expr) (s : Search) → (root_step e x s).visited ≡ s.visited
unfolding root_step
step-visited e (Expr.define name _ _ exported) s = ground arith
step-visited e (Expr.shape name _ exported) s = ground arith
step-visited e _ s = refl

add_root-In : (m : Text) (o : Option Text) (r : List Text) → In m r → In m (add_root o r)
add_root-In m none r h = h
add_root-In m (some n) r h = In-insert m n r h

add_root-cases :
    (m : Text) (o : Option Text) (r : List Text) → In m (add_root o r) → (o ≡ some m) ⊎ In m r
add_root-cases m none r h = inr h
add_root-cases m (some n) r h = elim (In-insert-cases m n r h) [
  | inl e ↦ inl (ap some (sym e))
  | inr old ↦ inr old
]

push_root-Mem :
    {e : Expr} (d : Expr) (o p : Option Text) (stack : List Expr)
    → Memᴰ e stack
    → Memᴰ e (push_root d o p stack)
push_root-Mem d (some _) (some _) stack h = Memᴰ.tail h
push_root-Mem d (some _) none stack h = h
push_root-Mem d none p stack h = h

push_root-cases :
    {e : Expr} (d : Expr) (o p : Option Text) (stack : List Expr)
    → Memᴰ e (push_root d o p stack)
    → Memᴰ e stack ⊎ ((e ≡ d) × (n : Text) × (m : Text) × (o ≡ some n) × (p ≡ some m))
push_root-cases d (some n) (some m) stack (Memᴰ.head same) = inr (same, n, m, refl, refl)
push_root-cases d (some n) (some m) stack (Memᴰ.tail h) = inl h
push_root-cases d (some _) none stack h = inl h
push_root-cases d none p stack h = inl h

-- A definition is a root under its own name.
root_same :
    (x : Expr) {n m : Text} → define_name x ≡ some n → root_of x ≡ some m → root_of x ≡ some n
root_same (Expr.define name _ _ exported) d r = ground arith
root_same _ d r = cc

module _ (m : Text) where
  roots-In : (es : List Expr) (s : Search) → In m s.reachable → In m (find_roots es s).reachable
  unfolding find_roots
  roots-In [] s h = h
  roots-In (e ∷ es) s h = roots-In es (root_step e (unwrap_metadata e) s) (
      subst (In m) (sym (step-reachable e (unwrap_metadata e) s))
        (add_root-In m (root_name e) s.reachable h))

  pub roots-In_self :
      {e : Expr} (es : List Expr) (s : Search)
      → Memᴰ e es
      → root_name e ≡ some m
      → In m (find_roots es s).reachable
  unfolding find_roots
  roots-In_self [] s h r = elim h [ ]
  roots-In_self {e} (d ∷ es) s (Memᴰ.head same) r =
      let root : root_name d ≡ some m = subst (λ (o : Expr). root_name o ≡ some m) same r in
      roots-In es (root_step d (unwrap_metadata d) s) (
        subst (In m) (sym (step-reachable d (unwrap_metadata d) s))
          (subst (λ o. In m (add_root o s.reachable)) (sym root) (In-insert_self m s.reachable)))
  roots-In_self (d ∷ es) s (Memᴰ.tail h) r =
      roots-In_self es (root_step d (unwrap_metadata d) s) h r

  pub roots-In-cases :
      (es : List Expr) (s : Search)
      → In m (find_roots es s).reachable
      → In m s.reachable ⊎ ((e : Expr) × Memᴰ e es × (root_name e ≡ some m))
  unfolding find_roots
  roots-In-cases [] s h = inl h
  roots-In-cases (d ∷ es) s h = elim (roots-In-cases es (root_step d (unwrap_metadata d) s) h) [
    | inr (e, at, root) ↦ inr (e, Memᴰ.tail at, root)
    | inl now ↦
        elim (add_root-cases m (root_name d) s.reachable
          (subst (In m) (step-reachable d (unwrap_metadata d) s) now)) [
            | inl root ↦ inr (d, Memᴰ.head refl, root)
            | inr old ↦ inl old
          ]
  ]

module _ {e : Expr} where
  roots-Mem : (es : List Expr) (s : Search) → Memᴰ e s.to_visit → Memᴰ e (find_roots es s).to_visit
  unfolding find_roots
  roots-Mem [] s h = h
  roots-Mem (d ∷ es) s h = roots-Mem es (root_step d (unwrap_metadata d) s) (
      subst (Memᴰ e) (sym (step-to_visit d (unwrap_metadata d) s))
        (push_root-Mem d (define_name (unwrap_metadata d)) (root_name d) s.to_visit h))

  pub roots-Mem_self :
      {n m : Text} (es : List Expr) (s : Search)
      → Memᴰ e es
      → define_name (unwrap_metadata e) ≡ some n
      → root_name e ≡ some m
      → Memᴰ e (find_roots es s).to_visit
  unfolding find_roots
  roots-Mem_self [] s h d r = elim h [ ]
  roots-Mem_self {n} {m} (x ∷ es) s (Memᴰ.head same) d r =
      let named : define_name (unwrap_metadata x) ≡ some n =
        subst (λ (o : Expr). define_name (unwrap_metadata o) ≡ some n) same d in
      let root : root_name x ≡ some m = subst (λ (o : Expr). root_name o ≡ some m) same r in
      roots-Mem es (root_step x (unwrap_metadata x) s) (
        subst (Memᴰ e) (sym (step-to_visit x (unwrap_metadata x) s))
          (rw (named, root) (Memᴰ.head same)))
  roots-Mem_self (x ∷ es) s (Memᴰ.tail h) d r =
      roots-Mem_self es (root_step x (unwrap_metadata x) s) h d r

  pub roots-Mem-cases :
      (es : List Expr) (s : Search)
      → Memᴰ e (find_roots es s).to_visit
      → Memᴰ e s.to_visit
        ⊎ (Memᴰ e es
            × (n : Text) × (define_name (unwrap_metadata e) ≡ some n)
            × (root_name e ≡ some n))
  unfolding find_roots
  roots-Mem-cases [] s h = inl h
  roots-Mem-cases (d ∷ es) s h = elim (roots-Mem-cases es (root_step d (unwrap_metadata d) s) h) [
    | inr (at, n, named, root) ↦ inr (Memᴰ.tail at, n, named, root)
    | inl now ↦
        elim (push_root-cases d (define_name (unwrap_metadata d)) (root_name d) s.to_visit
          (subst (Memᴰ e) (step-to_visit d (unwrap_metadata d) s) now)) [
            | inl old ↦ inl old
            | inr (same, n, m, named, root) ↦ inr (
              Memᴰ.head same,
              n,
              subst (λ (o : Expr). define_name (unwrap_metadata o) ≡ some n) (sym same) named,
              subst (λ (o : Expr). root_name o ≡ some n) (sym same)
                  (root_same (unwrap_metadata d) named root),
            )
          ]
  ]

pub roots-visited : (es : List Expr) (s : Search) → (find_roots es s).visited ≡ s.visited
unfolding find_roots
roots-visited [] s = refl
roots-visited (e ∷ es) s =
    roots-visited es (root_step e (unwrap_metadata e) s) ∙ step-visited e (unwrap_metadata e) s

push_root-length :
    (e : Expr) (o p : Option Text) (stack : List Expr)
    → length (push_root e o p stack) ≤ suc (length stack)
push_root-length e (some _) (some _) stack = omega arith
push_root-length e (some _) none stack = omega arith
push_root-length e none p stack = omega arith

pub roots-length :
    (es : List Expr) (s : Search)
    → length (find_roots es s).to_visit ≤ length es + length s.to_visit
unfolding find_roots
roots-length [] s = omega arith
roots-length (e ∷ es) s = omega (
  arith,
  roots-length es (root_step e (unwrap_metadata e) s),
  ap length (step-to_visit e (unwrap_metadata e) s),
  push_root-length e (define_name (unwrap_metadata e)) (root_name e) s.to_visit,
)
