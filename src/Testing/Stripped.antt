-- ===== src/Testing/Stripped.antt =====
-- src/main.rs and src/testing/mod.rs: what the two loops over a module generate for its tests and for the
-- rest of it.
use llmlang.Prelude.{◌≡◌, refl, ap, true, false, Text, List, [], ◌∷◌, Bool-cases, inl, inr, fun_ext}
use llmlang.Ast.{Expr}
use llmlang.Error.{ok, bind}
use llmlang.Codegen.{Generator, gen_item, gen_module, gen_harness_item, gen_harness}
use llmlang.Testing.Discovery.{DiscoveredTest, discover_tests}
use llmlang.Testing.Split.{is_test, production_of, discover_tests-splits}

module _ {S : Type 0} (g : Generator S) where
  test-skipped : (e : Expr) (s : S) → is_test e ≡ true → gen_item g e s ≡ ok s
  unfolding gen_item
  test-skipped (Expr.metadata (Expr.string t) v target) s h = rw (h, gen_item) refl
  test-skipped e s h = absurd (cc)

  harness-item : (e : Expr) (s : S) → is_test e ≡ false → gen_harness_item g e s ≡ gen_item g e s
  unfolding gen_item gen_harness_item
  harness-item (Expr.metadata (Expr.string t) v target) s h = rw (h, gen_item) refl
  harness-item e s h = refl

  module-production :
      (es : List Expr) (s : S) → gen_module g es s ≡ gen_module g (production_of es) s
  unfolding gen_module
  module-production [] s = refl
  module-production (e ∷ es) s = elim (Bool-cases (is_test e)) [
    | inl h ↦ rw (h, test-skipped e s h) (module-production es s)
    | inr h ↦ rw h (ap (bind (gen_item g e s)) (fun_ext (module-production es)))
  ]

  harness-production :
      (es : List Expr) (s : S)
      → gen_harness g (production_of es) s ≡ gen_module g (production_of es) s
  unfolding gen_module gen_harness
  harness-production [] s = refl
  harness-production (e ∷ es) s = elim (Bool-cases (is_test e)) [
    | inl h ↦ rw h (harness-production es s)
    | inr h ↦
        rw (h, harness-item e s h) (ap (bind (gen_item g e s)) (fun_ext (harness-production es)))
  ]

-- If the tests of a module are found, then from every state of the code generator the loop over the
-- expressions with which `main` generates code does for the whole module what it does for the module
-- without its tests, and the loop of the test build does the same for that part. This is about the
-- loops alone: `main` also verifies the tests, infers types over them and keeps what they call.
pub gen_module-discovered :
    {S : Type 0} (g : Generator S) (hash : Text → Text) (exprs : List Expr)
    (tests : List DiscoveredTest) (production : List Expr) (s : S)
    → discover_tests hash exprs ≡ ok (tests, production)
    → (gen_module g exprs s ≡ gen_module g production s)
      × (gen_harness g production s ≡ gen_module g production s)
gen_module-discovered g hash exprs tests production s h =
    rw ((discover_tests-splits hash exprs tests production h).0)
      (module-production g exprs s, harness-production g exprs s)
