-- ===== src/Verify/Routing.antt =====
-- The loop that src/compiler/parser/mod.rs `parse_router` generates, under the ownership check of
-- src/compiler/analysis/verify.rs.
use llmlang.Prelude.{
  ℕ, ◌≡◌, refl, subst, true, Text, List, [], ◌∷◌, none, some, contains_key, Option-cases, inl, inr,
  All,
}
use mathlib.Core.Option.{some-injective}
use llmlang.Ast.{Expr, Exprs}
use llmlang.Error.{ok}
use llmlang.Parser.{
  Route, literal_of, segments, analyze, recurse_call, extract_args, route_branch, add_route,
  dispatch_tree, loop_def,
}
use llmlang.Verify.Checks.{VariableState, VerificationContext}
use llmlang.Verify.Walk.{verify_expr, verify_args}
use llmlang.Verify.Module.{Tables, verify_body}

-- The expression names a function of the module.
abbrev pub IsFunction : Tables → Expr → Type 0
IsFunction t e = (name : Text) × (e ≡ Expr.identifier name) × (contains_key name t.functions ≡ true)

-- Within the loop: the method, the path, the raw path, the request and the server.
abbrev within_loop : Tables → VariableState → VerificationContext
within_loop t s = record {
  shapes = t.shapes;
  functions = t.functions;
  stack = VariableState.available ∷ VariableState.available ∷ VariableState.available ∷ s ∷ s ∷ [];
  stack_shapes = none ∷ none ∷ none ∷ none ∷ none ∷ [];
  expand_map = [];
}

-- The request is handed on, the server is not yet.
abbrev handed_on : Tables → VerificationContext
handed_on t = record (within_loop t VariableState.available) {
  stack =
      VariableState.available ∷ VariableState.available ∷ VariableState.available
      ∷ VariableState.moved ∷ VariableState.available ∷ [];
}

module _ (t : Tables) (loop_name : Text) (known : contains_key loop_name t.functions ≡ true) where
  extract-passes :
      (indices : List ℕ) → verify_args (extract_args indices) (handed_on t) ≡ ok (handed_on t)
  unfolding extract_args verify_expr
  extract-passes [] = refl
  extract-passes (i ∷ is) = extract-passes is

  recurse-passes :
      verify_expr (recurse_call loop_name) (handed_on t) ≡ ok (within_loop t VariableState.moved)
  unfolding verify_expr
  recurse-passes = rw (known, verify_expr) refl

  handler-passes :
      (handler : Expr) (indices : List ℕ)
      → IsFunction t handler
      → verify_expr
          (Expr.seq
            (Expr.apply handler (Exprs.cons (Expr.move (Expr.de_bruijn 3)) (extract_args indices)))
            (recurse_call loop_name))
          (within_loop t VariableState.available)
        ≡ ok (within_loop t VariableState.moved)
  unfolding verify_expr
  handler-passes handler indices (name, same, found) =
      rw (same, found, extract-passes indices, verify_expr) recurse-passes

  branch-passes :
      (method path : Text) (handler otherwise : Expr)
      → IsFunction t handler
      → verify_expr otherwise (within_loop t VariableState.available)
        ≡ ok (within_loop t VariableState.moved)
      → verify_expr
          (route_branch loop_name method path handler otherwise)
          (within_loop t VariableState.available)
        ≡ ok (within_loop t VariableState.moved)
  unfolding route_branch verify_expr
  branch-passes method path handler otherwise known_handler rest =
      rw (handler-passes handler (analyze 0 (segments path)).1 known_handler, rest, verify_expr)
        refl

  route-passes :
      (r : Route) (otherwise tree : Expr)
      → IsFunction t r.handler
      → verify_expr otherwise (within_loop t VariableState.available)
        ≡ ok (within_loop t VariableState.moved)
      → add_route loop_name r otherwise ≡ some tree
      → verify_expr tree (within_loop t VariableState.available)
        ≡ ok (within_loop t VariableState.moved)
  unfolding add_route
  route-passes r otherwise tree known_handler rest h = elim (Option-cases (literal_of r.method)) [
    | inl e ↦ let never : none ≡ some tree = rw (e, add_route) at h in cc
    | inr (m, e) ↦ elim (Option-cases (literal_of r.path)) [
      | inl f ↦ let never : none ≡ some tree = rw (e, f, add_route) at h in cc
      | inr (p, f) ↦
          let same : some (route_branch loop_name m p r.handler otherwise) ≡ some tree =
            rw (e, f, add_route) at h in
          subst
            (λ (x : Expr).
              verify_expr x (within_loop t VariableState.available)
              ≡ ok (within_loop t VariableState.moved))
            (some-injective _ _ same) (branch-passes m p r.handler otherwise known_handler rest)
    ]
  ]

  tree-passes :
      (fallback tree : Expr) (routes : List Route)
      → IsFunction t fallback
      → All (λ r. IsFunction t r.handler) routes
      → dispatch_tree loop_name fallback routes ≡ some tree
      → verify_expr tree (within_loop t VariableState.available)
        ≡ ok (within_loop t VariableState.moved)
  unfolding dispatch_tree
  tree-passes fallback tree [] known_fallback hs h =
      subst
        (λ (x : Expr).
          verify_expr x (within_loop t VariableState.available)
          ≡ ok (within_loop t VariableState.moved))
        (some-injective _ _ h) (handler-passes fallback [] known_fallback)
  tree-passes fallback tree (r ∷ rs) known_fallback hs h =
      elim (Option-cases (dispatch_tree loop_name fallback rs)) [
        | inl e ↦ let never : none ≡ some tree = rw (e, dispatch_tree) at h in cc
        | inr (later, e) ↦
            route-passes r later tree hs.0 (tree-passes fallback later rs known_fallback hs.1 e)
              (rw (e, dispatch_tree) at h)
      ]

-- If the routing loop, the fallback and the handlers are functions of the module, then the loop that is
-- generated for the routes passes the ownership check, whatever the methods and the paths are.
pub verify_body-loop_def :
    (t : Tables) (filename loop_name : Text) (fallback tree : Expr) (routes : List Route)
    → contains_key loop_name t.functions ≡ true
    → IsFunction t fallback
    → All (λ r. IsFunction t r.handler) routes
    → dispatch_tree loop_name fallback routes ≡ some tree
    → verify_body t filename (loop_def loop_name tree) ≡ ok tt
unfolding verify_body loop_def
verify_body-loop_def t filename loop_name fallback tree routes known known_fallback hs h =
    rw (tree-passes t loop_name known fallback tree routes known_fallback hs h, verify_expr) refl
