-- ===== src/Analysis/Turns.antt =====
-- The loop of src/compiler/analysis/mod.rs `prune_dead_code` ends: each turn visits a definition for
-- the first time, or takes off the stack one that was visited already.
use llmlang.Prelude.{
  ℕ, zero, suc, ◌+◌, ◌≤◌, ◌<◌, ◌≡◌, refl, sym, ap, ◌∙◌, subst, ◌⊎◌, inl, inr, Bool, true, false,
  not, Text, List, [], ◌∷◌, Option, none, some, if◌then◌else◌, length, arith, Bool-cases,
  List-cases, Memᴰ,
}
use llmlang.Ast.{Expr}
use llmlang.Analysis.Calls.{get_calls}
use llmlang.Analysis.Prune.{
  contains, insert, mark_calls, mark_visited, push_new, is_new, defined_name, Search, find_roots,
  visit_expr, visit_all, weigh, turns,
}
use llmlang.Analysis.Sets.{In-insert, In-insert_self, is_new-parts}
use llmlang.Analysis.Roots.{roots-length}
use llmlang.Analysis.Reach.{DistinctNames, Inv, start-Inv, visit-Inv}

-- A definition that was not visited.
abbrev unvisited : Option Text → List Text → Bool
unvisited none v = false
unvisited (some n) v = not (contains n v)

-- `k` for every definition that was not visited.
abbrev load : ℕ → List Text → List Expr → ℕ
load k v [] = 0
load k v (e ∷ es) = (if unvisited (defined_name e) v then k else 0) + load k v es

-- `k`, unless the top of the stack was not visited.
abbrev stale : ℕ → List Text → List Expr → ℕ
stale k v [] = k
stale k v (e ∷ _) = if unvisited (defined_name e) v then 0 else k

load-weigh : (k : ℕ) (v : List Text) (es : List Expr) → load k v es ≤ weigh k es
load-weigh k v [] = omega arith
load-weigh k v (e ∷ es) = ground (arith, load-weigh k v es)

unvisited-insert :
    (o : Option Text) (n : Text) (v : List Text)
    → unvisited o (insert n v) ≡ true
    → unvisited o v ≡ true
unvisited-insert none n v h = cc
unvisited-insert (some m) n v h = ground (arith, In-insert m n v)

load-insert :
    (k : ℕ) (n : Text) (v : List Text) (es : List Expr) → load k (insert n v) es ≤ load k v es
load-insert k n v [] = omega arith
load-insert k n v (e ∷ es) =
    ground (arith, load-insert k n v es, unvisited-insert (defined_name e) n v)

unvisited_self : (n : Text) (v : List Text) → unvisited (some n) (insert n v) ≡ false
unvisited_self n v = ap not (In-insert_self n v)

-- The first visit of a definition takes `k` off the load.
load-visit :
    (k : ℕ) (d : Expr) (n : Text) (v : List Text) (es : List Expr)
    → Memᴰ d es
    → defined_name d ≡ some n
    → contains n v ≡ false
    → load k (insert n v) es + k ≤ load k v es
load-visit k d n v [] h named new = elim h [ ]
load-visit k d n v (e ∷ es) (Memᴰ.head same) named new =
    let name : defined_name e ≡ some n = subst (λ (o : Expr). defined_name o ≡ some n) same named in
    rw (name, new, unvisited_self n v) (omega (arith, load-insert k n v es))
load-visit k d n v (e ∷ es) (Memᴰ.tail h) named new =
    ground (arith, load-visit k d n v es h named new, unvisited-insert (defined_name e) n v)

-- What is pushed is as new as the turn found it, and there is no more of it than expressions.
push_new-stale :
    (k : ℕ) (r v : List Text) (ds stack : List Expr)
    → (length (push_new ds r v stack) ≤ length ds + length stack)
      × ((push_new ds r v stack ≡ stack) ⊎ (stale k v (push_new ds r v stack) ≡ 0))
unfolding push_new
push_new-stale k r v [] stack = (omega arith, inl refl)
push_new-stale k r v (d ∷ ds) stack = elim (Bool-cases (is_new (defined_name d) r v)) [
  | inl e ↦
      let (short, top) = push_new-stale k r v ds (d ∷ stack) in
      rw (e, push_new)
        (
          omega (arith, short),
          inr (elim top [ inl same ↦ ap (stale k v) same ∙ fresh e | inr zero_left ↦ zero_left ]),
        )
  | inr e ↦
      let (short, top) = push_new-stale k r v ds stack in
      rw (e, push_new) (omega (arith, short), top)
]
  where
    fresh : is_new (defined_name d) r v ≡ true → stale k v (d ∷ stack) ≡ 0
    fresh e = let (n, name, _, new) = is_new-parts (defined_name d) r v e in rw (name, new) refl

stale-le : (k : ℕ) (v : List Text) (stack : List Expr) → stale k v stack ≤ k
stale-le k v [] = omega arith
stale-le k v (e ∷ _) = ground arith

insert_old : (n : Text) (v : List Text) → contains n v ≡ true → insert n v ≡ v
unfolding insert
insert_old n v e = rw (e, insert) refl

mark_visited-some :
    (o : Option Text) (v : List Text) {n : Text} → o ≡ some n → mark_visited o v ≡ insert n v
unfolding mark_visited
mark_visited-some o v e = rw e refl

module _ (exprs : List Expr) where
  -- What a state has left to do, for `n` expressions.
  abbrev left : Search → ℕ
  left s =
      let n = length exprs in
      load (n + n + 2) s.visited exprs + length s.to_visit + stale n s.visited s.to_visit

  turn-left :
      (d : Expr) (n : Text) (rest : List Expr) (r v : List Text)
      → Memᴰ d exprs
      → defined_name d ≡ some n
      → (let k = length exprs in
          let stack = push_new exprs r (insert n v) rest in
          load (k + k + 2) (insert n v) exprs + length stack + stale k (insert n v) stack
          < load (k + k + 2) v exprs + suc (length rest) + stale k v (d ∷ rest))
  turn-left d n rest r v at named =
      let k = length exprs in
      let (short, top) = push_new-stale k r (insert n v) exprs rest in
      elim (Bool-cases (contains n v)) [
        | inl old ↦
            let same = insert_old n v old in
            let seen : stale k v (d ∷ rest) ≡ k = rw (named, old) refl in
            elim top [
              | inl kept ↦ omega (
                arith,
                ap length kept,
                ap (stale k (insert n v)) kept,
                stale-le k (insert n v) rest,
                seen,
                ap (λ w. load (k + k + 2) w exprs) same,
              )
              | inr none_left ↦
                  omega (arith, short, none_left, seen, ap (λ w. load (k + k + 2) w exprs) same)
            ]
        | inr new ↦ omega (
          arith,
          short,
          load-visit (k + k + 2) d n v exprs at named new,
          stale-le k (insert n v) (push_new exprs r (insert n v) rest),
        )
      ]

module _ (exprs : List Expr) (distinct : DistinctNames exprs) where
  visit-left :
      (s : Search) (d : Expr) (rest : List Expr)
      → s.to_visit ≡ d ∷ rest
      → Inv exprs s
      → left exprs (visit_expr exprs d (record s { to_visit = rest })) < left exprs s
  unfolding visit_expr
  visit-left s d rest top i =
      let (at, n, named, _) = i.stacked d (subst (Memᴰ d) (sym top) (Memᴰ.head refl)) in
      rw (top, mark_visited-some (defined_name d) s.visited named)
        (turn-left exprs d n rest (mark_calls (get_calls d) s.reachable) s.visited at named)

  visit_all-ends :
      (fuel : ℕ) (s : Search)
      → Inv exprs s
      → left exprs s < fuel
      → (r : List Text) × (visit_all fuel exprs s ≡ some r)
  unfolding visit_all
  visit_all-ends zero s i h = absurd (omega arith)
  visit_all-ends (suc fuel) s i h = elim (List-cases s.to_visit) [
    | inl empty ↦ (s.reachable, rw (empty, visit_all) refl)
    | inr (d, rest, top) ↦
        let next = visit_expr exprs d (record s { to_visit = rest }) in
        let (r, found) =
          visit_all-ends fuel next (visit-Inv exprs distinct s d rest top i)
            (omega (arith, visit-left s d rest top i)) in
        (r, rw (top, visit_all) found)
  ]

  pub turns_enough :
      (r : List Text) × (visit_all
          (turns exprs)
          exprs
          (find_roots exprs (record { reachable = []; visited = []; to_visit = [] }))
        ≡ some r)
  turns_enough =
      let k = length exprs in
      let start : Search = record { reachable = []; visited = []; to_visit = [] } in
      let s = find_roots exprs start in
      visit_all-ends (turns exprs) s (start-Inv exprs distinct) (
        omega (
          arith,
          load-weigh (k + k + 2) s.visited exprs,
          roots-length exprs start,
          stale-le k s.visited s.to_visit,
        ))
