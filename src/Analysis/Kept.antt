-- ===== src/Analysis/Kept.antt =====
-- src/compiler/analysis/mod.rs: `prune_dead_code` keeps what is reachable.
use llmlang.Prelude.{
  ◌≡◌, refl, sym, subst, ◌∙◌, inl, inr, ◌↔◌, true, false, Text, List, [], ◌∷◌, Option, none, some,
  arith, Bool-cases, Memᴰ,
}
use mathlib.Core.Option.{some-injective}
use llmlang.Ast.{Expr}
use llmlang.Analysis.Mentions.{Mentions}
use llmlang.Analysis.Names.{get_calls-iff_Mentions}
use llmlang.Analysis.Prune.{
  unwrap_metadata, define_name, defined_name, keeps, filter_kept, turns, prune_dead_code,
}
use llmlang.Analysis.Sets.{In}
use llmlang.Analysis.Roots.{root_of}
use llmlang.Analysis.Reach.{Reachable, DistinctNames, visited-iff_reachable}
use llmlang.Analysis.Turns.{turns_enough}

-- What the call graph wants of an expression without its metadata.
abbrev pub Wanted : List Expr → Expr → Type 0
Wanted exprs (Expr.define name _ _ _) = Reachable exprs name
Wanted exprs (Expr.import _ symbol _) = Reachable exprs symbol
Wanted exprs (Expr.shape name _ _) = Reachable exprs name
Wanted exprs _ = Unit

module _ (exprs : List Expr) (r : List Text) (h : (n : Text) → In n r ↔ Reachable exprs n) where
  keeps-Wanted :
      (e x : Expr) → Memᴰ e exprs → unwrap_metadata e ≡ x → (keeps r x ≡ true) ↔ Wanted exprs x
  unfolding keeps
  keeps-Wanted e (Expr.define name _ _ _) at same = h name
  keeps-Wanted e (Expr.import _ symbol _) at same = h symbol
  keeps-Wanted e (Expr.shape name fields exported) at same = (
    λ kept. elim (Bool-cases exported) [
      | inl public ↦
          Reachable.root at (subst (λ x. root_of x ≡ some name) (sym same) (rw public refl))
      | inr private ↦ (h name).0 (ground arith)
    ],
    λ wanted. let here = (h name).1 wanted in ground arith,
  )
  keeps-Wanted e _ at same = (λ _. tt, λ _. refl)

  filter-Mem :
      (es : List Expr) (e : Expr)
      → Memᴰ e (filter_kept r es) ↔ (Memᴰ e es × (keeps r (unwrap_metadata e) ≡ true))
  unfolding filter_kept
  filter-Mem [] e = (λ m. elim m [ ], λ (m, _). elim m [ ])
  filter-Mem (d ∷ es) e = elim (Bool-cases (keeps r (unwrap_metadata d))) [
    | inl wanted ↦ rw (wanted, filter_kept) (kept wanted (filter-Mem es e))
    | inr dead ↦ rw (dead, filter_kept) (dropped dead (filter-Mem es e))
  ]
    where
      dropped :
          keeps r (unwrap_metadata d) ≡ false
          → Memᴰ e (filter_kept r es) ↔ (Memᴰ e es × (keeps r (unwrap_metadata e) ≡ true))
          → Memᴰ e (filter_kept r es) ↔ (Memᴰ e (d ∷ es) × (keeps r (unwrap_metadata e) ≡ true))
      dropped dead later = (λ m. let (at, ok) = later.0 m in (Memᴰ.tail at, ok), back)
        where
          back : Memᴰ e (d ∷ es) × (keeps r (unwrap_metadata e) ≡ true) → Memᴰ e (filter_kept r es)
          back (Memᴰ.head same, ok) =
              let clash = subst (λ (o : Expr). keeps r (unwrap_metadata o) ≡ true) same ok in cc
          back (Memᴰ.tail m, ok) = later.1 (m, ok)

      kept :
          keeps r (unwrap_metadata d) ≡ true
          → Memᴰ e (filter_kept r es) ↔ (Memᴰ e es × (keeps r (unwrap_metadata e) ≡ true))
          → Memᴰ e (d ∷ filter_kept r es) ↔ (Memᴰ e (d ∷ es) × (keeps r (unwrap_metadata e) ≡ true))
      kept wanted later = (into, back)
        where
          into :
              Memᴰ e (d ∷ filter_kept r es) → Memᴰ e (d ∷ es) × (keeps r (unwrap_metadata e) ≡ true)
          into (Memᴰ.head same) = (
            Memᴰ.head same,
            subst (λ (o : Expr). keeps r (unwrap_metadata o) ≡ true) (sym same) wanted,
          )
          into (Memᴰ.tail m) = let (at, ok) = later.0 m in (Memᴰ.tail at, ok)

          back :
              Memᴰ e (d ∷ es) × (keeps r (unwrap_metadata e) ≡ true) → Memᴰ e (d ∷ filter_kept r es)
          back (Memᴰ.head same, _) = Memᴰ.head same
          back (Memᴰ.tail m, ok) = Memᴰ.tail (later.1 (m, ok))

-- The name that a reference would look for.
abbrev pub symbol_of : Expr → Option Text
symbol_of (Expr.define name _ _ _) = some name
symbol_of (Expr.import _ symbol _) = some symbol
symbol_of (Expr.shape name _ _) = some name
symbol_of _ = none

Wanted-defined :
    (exprs : List Expr) (x : Expr) {n : Text}
    → define_name x ≡ some n
    → Wanted exprs x
    → Reachable exprs n
Wanted-defined exprs (Expr.define name _ _ _) e w = subst (Reachable exprs) (some-injective _ _ e) w
Wanted-defined exprs _ e w = cc

Wanted-symbol :
    (exprs : List Expr) (x : Expr) {c : Text}
    → symbol_of x ≡ some c
    → Reachable exprs c
    → Wanted exprs x
Wanted-symbol exprs (Expr.define name _ _ _) e w =
    subst (Reachable exprs) (sym (some-injective _ _ e)) w
Wanted-symbol exprs (Expr.import _ symbol _) e w =
    subst (Reachable exprs) (sym (some-injective _ _ e)) w
Wanted-symbol exprs (Expr.shape name _ _) e w =
    subst (Reachable exprs) (sym (some-injective _ _ e)) w
Wanted-symbol exprs _ e w = tt

-- If no two expressions of a module define a function or a shape of the same name, pruning ends,
-- and an expression is kept exactly if it is in the module and is wanted: a function, an import or a
-- shape if the call graph reaches its name from `main` or an exported symbol, and anything else always.
pub prune_dead_code-Wanted :
    (exprs : List Expr)
    → DistinctNames exprs
    → (kept : List Expr) × (prune_dead_code exprs ≡ some kept)
      × ((e : Expr) → Memᴰ e kept ↔ (Memᴰ e exprs × Wanted exprs (unwrap_metadata e)))
unfolding prune_dead_code
prune_dead_code-Wanted exprs distinct =
    let (r, found) = turns_enough exprs distinct in
    let h = visited-iff_reachable exprs distinct (turns exprs) r found in
    (
      filter_kept r exprs,
      rw (found, prune_dead_code) refl,
      λ e. (
        λ m.
            let (at, ok) = (filter-Mem exprs r h exprs e).0 m in
            (at, (keeps-Wanted exprs r h e (unwrap_metadata e) at refl).0 ok),
        λ (at, wanted).
            (filter-Mem exprs r h exprs e).1
              (at, (keeps-Wanted exprs r h e (unwrap_metadata e) at refl).1 wanted),
      ),
    )

-- A kept function has everything that it mentions outside its concatenations: if no two expressions
-- of the module define a function or a shape of the same name, then a definition, a shape or an import
-- with a name that a kept definition mentions there is kept too.
pub calls_kept :
    (exprs kept : List Expr)
    → DistinctNames exprs
    → prune_dead_code exprs ≡ some kept
    → (d e : Expr) (n c : Text) → Memᴰ d kept
    → defined_name d ≡ some n
    → Mentions c d
    → Memᴰ e exprs
    → symbol_of (unwrap_metadata e) ≡ some c
    → Memᴰ e kept
calls_kept exprs kept distinct h d e n c at named mentioned there symbol =
    let (kept', found, iff) = prune_dead_code-Wanted exprs distinct in
    let same : kept' ≡ kept = some-injective _ _ (sym found ∙ h) in
    let (before, wanted) = (iff d).0 (subst (Memᴰ d) (sym same) at) in
    let reached = Wanted-defined exprs (unwrap_metadata d) named wanted in
    let again = Reachable.called before named reached ((get_calls-iff_Mentions c d).1 mentioned) in
    subst (Memᴰ e) same ((iff e).1 (there, Wanted-symbol exprs (unwrap_metadata e) symbol again))
