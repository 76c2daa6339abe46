-- ===== src/Analysis/Prune.antt =====
-- src/compiler/analysis/mod.rs: `prune_dead_code`. `HashSet<String>` is a list of names without
-- order, and the stack `to_visit` is kept with its top first.
use llmlang.Prelude.{
  ℕ, zero, suc, ◌+◌, Bool, true, false, not, ◌&&◌, ◌||◌, Text, codes, text_eq, List, [], ◌∷◌,
  Option, none, some, if◌then◌else◌, length, any,
}
use llmlang.Ast.{Expr}
use llmlang.Analysis.Calls.{get_calls}

unfoldable pub contains : Text → List Text → Bool
unfolding text_eq
contains name set = any (text_eq name) set

unfoldable pub insert : Text → List Text → List Text
unfolding contains
insert name set = if contains name set then set else name ∷ set

abbrev pub unwrap_metadata : Expr → Expr
unwrap_metadata (Expr.metadata _ _ t) = t
unwrap_metadata e = e

abbrev pub define_name : Expr → Option Text
define_name (Expr.define name _ _ _) = some name
define_name _ = none

-- `if let Expr::Define(name, ..) = unwrap_metadata(expr)`
abbrev pub defined_name : Expr → Option Text
defined_name e = define_name (unwrap_metadata e)

pub record Search : Type 0 where
  pub reachable : List Text
  pub visited : List Text
  pub to_visit : List Expr

-- The roots: `main` and the exported symbols.
unfoldable pub root_step : Expr → Expr → Search → Search
unfolding insert text_eq
root_step expr (Expr.define name _ _ exported) s =
    if text_eq name (codes "main") || exported
    then record s { reachable = insert name s.reachable; to_visit = expr ∷ s.to_visit }
    else s
root_step expr (Expr.shape name _ exported) s =
    if exported then record s { reachable = insert name s.reachable } else s
root_step expr _ s = s

unfoldable pub find_roots : List Expr → Search → Search
unfolding root_step
find_roots [] s = s
find_roots (e ∷ es) s = find_roots es (root_step e (unwrap_metadata e) s)

unfoldable pub mark_calls : List Text → List Text → List Text
unfolding insert
mark_calls [] reachable = reachable
mark_calls (call ∷ calls) reachable = mark_calls calls (insert call reachable)

unfoldable pub mark_visited : Option Text → List Text → List Text
unfolding insert
mark_visited none visited = visited
mark_visited (some name) visited = insert name visited

abbrev pub is_new : Option Text → List Text → List Text → Bool
is_new none reachable visited = false
is_new (some name) reachable visited = contains name reachable && not (contains name visited)

unfoldable pub push_new : List Expr → List Text → List Text → List Expr → List Expr
unfolding contains
push_new [] reachable visited stack = stack
push_new (d ∷ ds) reachable visited stack =
    push_new ds reachable visited
      (if is_new (defined_name d) reachable visited then d ∷ stack else stack)

-- One turn of the loop, for the expression that was popped.
unfoldable pub visit_expr : List Expr → Expr → Search → Search
unfolding get_calls mark_calls mark_visited push_new
visit_expr expressions expr s =
    let reachable = mark_calls (get_calls expr) s.reachable in
    let visited = mark_visited (defined_name expr) s.visited in
    record {
      reachable = reachable;
      visited = visited;
      to_visit = push_new expressions reachable visited s.to_visit;
    }

unfoldable pub visit_all : ℕ → List Expr → Search → Option (List Text)
unfolding visit_expr
visit_all zero expressions s = none
visit_all (suc fuel) expressions s = elim s.to_visit [
  | [] ↦ some s.reachable
  | expr ∷ rest ↦
      visit_all fuel expressions (visit_expr expressions expr (record s { to_visit = rest }))
]

unfoldable pub keeps : List Text → Expr → Bool
unfolding contains
keeps reachable (Expr.define name _ _ _) = contains name reachable
keeps reachable (Expr.import _ symbol _) = contains symbol reachable
keeps reachable (Expr.shape name _ exported) = contains name reachable || exported
keeps reachable _ = true

unfoldable pub filter_kept : List Text → List Expr → List Expr
unfolding keeps
filter_kept reachable [] = []
filter_kept reachable (e ∷ es) =
    if keeps reachable (unwrap_metadata e)
    then e ∷ filter_kept reachable es
    else filter_kept reachable es

-- `k` for every expression.
abbrev pub weigh : ℕ → List Expr → ℕ
weigh k [] = 0
weigh k (_ ∷ es) = k + weigh k es

-- Each turn visits a definition for the first time or takes one off the stack that is there twice.
abbrev pub turns : List Expr → ℕ
turns es = let n = length es in suc (weigh (n + n + 2) es + n + n)

unfoldable pub prune_dead_code : List Expr → Option (List Expr)
unfolding find_roots visit_all filter_kept
prune_dead_code expressions =
    elim (visit_all (turns expressions) expressions
      (find_roots expressions (record { reachable = []; visited = []; to_visit = [] }))) [
        | none ↦ none
        | some reachable ↦ some (filter_kept reachable expressions)
      ]
