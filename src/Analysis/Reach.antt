-- ===== src/Analysis/Reach.antt =====
-- What src/compiler/analysis/mod.rs `prune_dead_code` finds reachable.
use llmlang.Prelude.{
  ℕ, zero, suc, ◌≡◌, refl, sym, ap, ◌∙◌, subst, ◌⊎◌, inl, inr, ◌↔◌, true, Text, List, [], ◌∷◌,
  Option, none, some, arith, Bool-cases, List-cases, Memᴰ,
}
use mathlib.Core.Option.{some-injective}
use llmlang.Ast.{Expr}
use llmlang.Analysis.Calls.{get_calls}
use llmlang.Analysis.Prune.{
  contains, insert, mark_calls, mark_visited, push_new, is_new, unwrap_metadata, define_name,
  defined_name, Search, find_roots, visit_expr, visit_all,
}
use llmlang.Analysis.Sets.{
  In, In-insert-cases, In-mark, In-mark_self, In-mark-cases, Mem-push_new_self, Mem-push_new-cases,
  is_new-parts, is_new-of,
}
use llmlang.Analysis.Roots.{
  root_of, root_name, roots-In_self, roots-In-cases, roots-Mem_self, roots-Mem-cases, roots-visited,
}

-- The names that the call graph reaches from the roots.
pub data Reachable (exprs : List Expr) : Text → Type 0 where
  root : {e : Expr} {n : Text} → Memᴰ e exprs → root_name e ≡ some n → Reachable exprs n
  called :
      {d : Expr} {n c : Text}
      → Memᴰ d exprs
      → defined_name d ≡ some n
      → Reachable exprs n
      → Memᴰ c (get_calls d)
      → Reachable exprs c

abbrev pub declare_name : Expr → Option Text
declare_name (Expr.define name _ _ _) = some name
declare_name (Expr.shape name _ _) = some name
declare_name _ = none

-- No two expressions define a function or a shape of the same name.
abbrev pub DistinctNames : List Expr → Type 0
DistinctNames exprs =
    (d e : Expr) (n : Text)
    → Memᴰ d exprs
    → Memᴰ e exprs
    → declare_name (unwrap_metadata d) ≡ some n
    → declare_name (unwrap_metadata e) ≡ some n
    → d ≡ e

declared_of_defined : (x : Expr) {n : Text} → define_name x ≡ some n → declare_name x ≡ some n
declared_of_defined (Expr.define _ _ _ _) h = h
declared_of_defined _ h = cc

declared_of_root : (x : Expr) {n : Text} → root_of x ≡ some n → declare_name x ≡ some n
declared_of_root (Expr.define _ _ _ _) h = ground arith
declared_of_root (Expr.shape _ _ _) h = ground arith
declared_of_root _ h = cc

pub record Inv (exprs : List Expr) (s : Search) : Type 0 where
  pub sound : (n : Text) → In n s.reachable → Reachable exprs n
  pub stacked :
      (e : Expr)
      → Memᴰ e s.to_visit
      → Memᴰ e exprs × (n : Text) × (defined_name e ≡ some n) × In n s.reachable
  pub roots : (e : Expr) (n : Text) → Memᴰ e exprs → root_name e ≡ some n → In n s.reachable
  pub closed :
      (e : Expr) (n c : Text)
      → Memᴰ e exprs
      → defined_name e ≡ some n
      → In n s.visited
      → Memᴰ c (get_calls e)
      → In c s.reachable
  pub pending :
      (e : Expr) (n : Text)
      → Memᴰ e exprs
      → defined_name e ≡ some n
      → In n s.reachable
      → In n s.visited ⊎ Memᴰ e s.to_visit

module _ (exprs : List Expr) (distinct : DistinctNames exprs) where
  pub start-Inv :
      Inv exprs (find_roots exprs (record { reachable = []; visited = []; to_visit = [] }))
  unfolding contains
  start-Inv = record {
    sound = λ n h. elim (roots-In-cases n exprs _ h) [
      | inl never ↦ cc
      | inr (e, at, r) ↦ Reachable.root at r
    ];
    stacked = λ e h. elim (roots-Mem-cases exprs _ h) [
      | inl never ↦ elim never [ ]
      | inr (at, n, named, r) ↦ (at, n, named, roots-In_self n exprs _ at r)
    ];
    roots = λ e n at r. roots-In_self n exprs _ at r;
    closed = λ e n c at named v call. let none_yet = subst (In n) (roots-visited exprs _) v in cc;
    pending = λ e n at named h. elim (roots-In-cases n exprs _ h) [
      | inl never ↦ cc
      | inr (d, there, r) ↦
          let same =
            distinct d e n there at (declared_of_root (unwrap_metadata d) r)
              (declared_of_defined (unwrap_metadata e) named) in
          inr (roots-Mem_self exprs _ at named (subst (λ (o : Expr). root_name o ≡ some n) same r))
    ];
  }

  -- The turn for a definition `d` of the name `n`.
  turn : Expr → Text → List Expr → Search → Search
  turn d n rest s =
      let reachable = mark_calls (get_calls d) s.reachable in
      let visited = insert n s.visited in
      record {
        reachable = reachable;
        visited = visited;
        to_visit = push_new exprs reachable visited rest;
      }

  turn-Inv :
      (s : Search) (d : Expr) (n : Text) (rest : List Expr)
      → Inv exprs s
      → Memᴰ d exprs
      → defined_name d ≡ some n
      → In n s.reachable
      → s.to_visit ≡ d ∷ rest
      → Inv exprs (turn d n rest s)
  unfolding turn
  turn-Inv s d n rest i at named here top = record {
    sound = λ m h. elim (In-mark-cases m calls s.reachable h) [
      | inl call ↦ Reachable.called at named (i.sound n here) call
      | inr old ↦ i.sound m old
    ];
    stacked = λ e h. elim (Mem-push_new-cases r v exprs rest h) [
      | inl old ↦ keep e (i.stacked e (subst (Memᴰ e) (sym top) (Memᴰ.tail old)))
      | inr (there, new) ↦
          let (m, name, now, _) = is_new-parts (defined_name e) r v new in (there, m, name, now)
    ];
    roots = λ e m there root. In-mark m calls s.reachable (i.roots e m there root);
    closed = λ e m c there name visited call. elim (In-insert-cases m n s.visited visited) [
      | inl same ↦
          In-mark_self c calls s.reachable
            (subst (λ (o : Expr). Memᴰ c (get_calls o)) (again e m there name same) call)
      | inr old ↦ In-mark c calls s.reachable (i.closed e m c there name old call)
    ];
    pending = λ e m there name now. elim (Bool-cases (contains m v)) [
      | inl done ↦ inl done
      | inr new ↦ inr (
          Mem-push_new_self r v exprs rest
            (subst (λ o. is_new o r v ≡ true) (sym name) (is_new-of m r v now new)) there)
    ];
  }
    where
      calls : List Text
      calls = get_calls d

      r : List Text
      r = mark_calls (get_calls d) s.reachable

      v : List Text
      v = insert n s.visited

      keep :
          (e : Expr)
          → Memᴰ e exprs × (m : Text) × (defined_name e ≡ some m) × In m s.reachable
          → Memᴰ e exprs × (m : Text) × (defined_name e ≡ some m) × In m r
      keep e (there, m, name, old) = (there, m, name, In-mark m calls s.reachable old)

      again : (e : Expr) (m : Text) → Memᴰ e exprs → defined_name e ≡ some m → m ≡ n → e ≡ d
      again e m there name same =
          distinct e d n there at (declared_of_defined (unwrap_metadata e) (name ∙ ap some same))
            (declared_of_defined (unwrap_metadata d) named)

  pub visit-Inv :
      (s : Search) (d : Expr) (rest : List Expr)
      → s.to_visit ≡ d ∷ rest
      → Inv exprs s
      → Inv exprs (visit_expr exprs d (record s { to_visit = rest }))
  unfolding visit_expr mark_visited turn
  visit-Inv s d rest top i =
      let (at, n, named, here) = i.stacked d (subst (Memᴰ d) (sym top) (Memᴰ.head refl)) in
      rw (named, visit_expr) (turn-Inv s d n rest i at named here top)

  visit_all-In :
      (fuel : ℕ) (s : Search) (r : List Text)
      → Inv exprs s
      → visit_all fuel exprs s ≡ some r
      → (t : Search) × (t.reachable ≡ r) × (t.to_visit ≡ []) × Inv exprs t
  unfolding visit_all
  visit_all-In zero s r i h = cc
  visit_all-In (suc fuel) s r i h = elim (List-cases s.to_visit) [
    | inl empty ↦ (s, some-injective _ _ (rw (empty, visit_all) at h), empty, i)
    | inr (d, rest, top) ↦
        visit_all-In fuel (visit_expr exprs d (record s { to_visit = rest })) r
          (visit-Inv s d rest top i) (rw (top, visit_all) at h)
  ]

  reached :
      (s : Search) (n : Text) → Inv exprs s → s.to_visit ≡ [] → Reachable exprs n → In n s.reachable
  reached s n i empty (Reachable.root {e} at found) = i.roots e n at found
  reached s n i empty (Reachable.called {d} {n = m} at named before call) =
      elim (i.pending d m at named (reached s m i empty before)) [
        | inl visited ↦ i.closed d m n at named visited call
        | inr waiting ↦ elim (subst (Memᴰ d) empty waiting) [ ]
      ]

  -- The loop ends with the names that are reachable.
  pub visited-iff_reachable :
      (fuel : ℕ) (r : List Text)
      → visit_all fuel exprs
          (find_roots exprs (record { reachable = []; visited = []; to_visit = [] }))
        ≡ some r
      → (n : Text) → In n r ↔ Reachable exprs n
  visited-iff_reachable fuel r h n =
      let (t, same, empty, i) = visit_all-In fuel _ r start-Inv h in
      (
        λ here. i.sound n (subst (In n) (sym same) here),
        λ there. subst (In n) same (reached t n i empty there),
      )
