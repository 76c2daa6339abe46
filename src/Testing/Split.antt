-- ===== src/Testing/Split.antt =====
-- src/testing/mod.rs: what `discover_tests` finds and what it leaves.
use llmlang.Prelude.{
  ◌≡◌, refl, sym, ap, ◌∙◌, subst, Bool, true, false, Text, codes, text_eq, List, [], ◌∷◌, map,
  if◌then◌else◌, Bool-cases, inl, inr, All,
}
use llmlang.Ast.{Expr}
use llmlang.Error.{Result, ok, bind-eq-ok, ok_injective}
use llmlang.Parser.{strip_metadata}
use llmlang.Analysis.{structural_fingerprint}
use llmlang.Testing.Discovery.{
  DiscoveredTest, Discovered, fingerprint_of, add_test, keep_expr, discover_expr, discover_tests,
}

-- The expression is metadata with the tag "test".
abbrev pub is_test : Expr → Bool
is_test (Expr.metadata (Expr.string s) _ _) = text_eq s (codes "test")
is_test _ = false

abbrev pub target_of : Expr → Expr
target_of (Expr.metadata _ _ t) = strip_metadata t
target_of e = e

abbrev pub production_of : List Expr → List Expr
production_of [] = []
production_of (e ∷ es) = if is_test e then production_of es else e ∷ production_of es

abbrev pub targets_of : List Expr → List Expr
targets_of [] = []
targets_of (e ∷ es) = if is_test e then target_of e ∷ targets_of es else targets_of es

-- The test is a definition without parameters, under its name and with the fingerprint of its body.
abbrev pub IsRunnable : (Text → Text) → DiscoveredTest → Type 0
IsRunnable hash t =
    (body : Expr) × (exported : Bool) × (t.define ≡ Expr.define t.name [] body exported)
    × (t.fingerprint ≡ hash (structural_fingerprint body))

module _ (hash : Text → Text) where
  abbrev Splits : List Expr → Discovered → Type 0
  Splits es (tests, production) =
      (production ≡ production_of es)
      × (map (λ t. t.define) tests ≡ targets_of es)
      × All (IsRunnable hash) tests

  add-Splits :
      (x : Expr) (found : Result Text Discovered) (r : Discovered)
      → add_test hash x found ≡ ok r
      → (later : Discovered) × (found ≡ ok later)
        × (t : DiscoveredTest) × (r ≡ (t ∷ later.0, later.1))
        × (t.define ≡ x)
        × IsRunnable hash t
  unfolding add_test fingerprint_of
  add-Splits (Expr.define name [] body exported) found r h =
      let (later, e, back) = bind-eq-ok found _ h in
      (later, e, _, sym (ok_injective back), refl, (body, exported, refl, refl))
  add-Splits (Expr.define name (_ ∷ _) body exported) found r h = cc
  add-Splits _ found r h = cc

  tagged-Splits :
      (e : Expr) (es : List Expr) (found : Result Text Discovered) (r : Discovered)
      → ((later : Discovered) → found ≡ ok later → Splits es later)
      → is_test e ≡ true
      → add_test hash (target_of e) found ≡ ok r
      → Splits (e ∷ es) r
  tagged-Splits e es found r ih tagged h =
      let (later, passed, t, same, target, runnable) = add-Splits (target_of e) found r h in
      let (left, targets, all) = ih later passed in
      subst (Splits (e ∷ es)) (sym same) (
        rw tagged (
          left,
          ap (λ ds. t.define ∷ ds) targets ∙ ap (λ d. d ∷ targets_of es) target,
          (runnable, all),
        ))

  kept-Splits :
      (e : Expr) (es : List Expr) (found : Result Text Discovered) (r : Discovered)
      → ((later : Discovered) → found ≡ ok later → Splits es later)
      → is_test e ≡ false
      → keep_expr hash e found ≡ ok r
      → Splits (e ∷ es) r
  kept-Splits e es found r ih plain h =
      let (later, passed, back) =
        bind-eq-ok found (λ (tests, production). ok (tests, e ∷ production)) h in
      let (left, targets, all) = ih later passed in
      subst (Splits (e ∷ es)) (ok_injective back) (rw plain (ap (λ ps. e ∷ ps) left, targets, all))

  expr-Splits :
      (e : Expr) (es : List Expr) (found : Result Text Discovered) (r : Discovered)
      → ((later : Discovered) → found ≡ ok later → Splits es later)
      → discover_expr hash e found ≡ ok r
      → Splits (e ∷ es) r
  unfolding discover_expr
  expr-Splits (Expr.metadata (Expr.string s) v target) es found r ih h =
      elim (Bool-cases (text_eq s (codes "test"))) [
        | inl e ↦
            tagged-Splits (Expr.metadata (Expr.string s) v target) es found r ih e
              (rw (e, discover_expr) at h)
        | inr e ↦
            kept-Splits (Expr.metadata (Expr.string s) v target) es found r ih e
              (rw (e, discover_expr) at h)
      ]
  expr-Splits e es found r ih h = kept-Splits e es found r ih refl h

  -- If the tests of a module are found, then what is left is the module without what is tagged as a
  -- test, in its order; the tests are the targets of the tags, in their order, and each of them is a
  -- definition without parameters, under its own name and with the fingerprint of its own body.
  pub discover_tests-splits :
      (exprs : List Expr) (tests : List DiscoveredTest) (production : List Expr)
      → discover_tests hash exprs ≡ ok (tests, production)
      → (production ≡ production_of exprs)
        × (map (λ t. t.define) tests ≡ targets_of exprs)
        × All (IsRunnable hash) tests
  unfolding discover_tests
  discover_tests-splits exprs tests production h = go exprs (tests, production) h
    where
      go : (es : List Expr) (r : Discovered) → discover_tests hash es ≡ ok r → Splits es r
      go [] r h = subst (Splits []) (ok_injective h) (refl, refl, tt)
      go (e ∷ es) r h =
          expr-Splits e es (discover_tests hash es) r (λ later passed. go es later passed) h
