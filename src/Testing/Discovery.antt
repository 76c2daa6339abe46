-- ===== src/Testing/Discovery.antt =====
-- src/testing/mod.rs: `discover_tests`. SHA-256 with its hexadecimal text is a parameter.
use llmlang.Prelude.{Text, codes, text_eq, List, [], ◌∷◌, ◌++◌, if◌then◌else◌}
use llmlang.Ast.{Expr}
use llmlang.Error.{Result, ok, err, bind}
use llmlang.Parser.{strip_metadata}
use llmlang.Analysis.{structural_fingerprint}

pub record DiscoveredTest : Type 0 where
  pub name : Text
  pub fingerprint : Text
  pub define : Expr

abbrev pub Discovered : Type 0
Discovered = List DiscoveredTest × List Expr

unfoldable pub takes_parameters : Text → Text
takes_parameters name = codes "E019: test function '" ++ (name ++ codes "' must take no parameters")

abbrev pub misplaced : Text
misplaced = codes "E019: M \"test\" metadata must target a function definition (:)"

module _ (hash : Text → Text) where
  unfoldable pub fingerprint_of : Expr → Text
  unfolding structural_fingerprint
  fingerprint_of body = hash (structural_fingerprint body)

  -- What the metadata of a test targets, in front of what was found behind it.
  unfoldable pub add_test : Expr → Result Text Discovered → Result Text Discovered
  unfolding fingerprint_of takes_parameters
  add_test (Expr.define name [] body exported) found = bind found λ (tests, production). ok (
    record {
      name = name;
      fingerprint = fingerprint_of body;
      define = Expr.define name [] body exported;
    }
        ∷ tests,
    production,
  )
  add_test (Expr.define name (_ ∷ _) body exported) found = err (takes_parameters name)
  add_test _ found = err misplaced

  abbrev pub keep_expr : Expr → Result Text Discovered → Result Text Discovered
  keep_expr expr found = bind found λ (tests, production). ok (tests, expr ∷ production)

  unfoldable pub discover_expr : Expr → Result Text Discovered → Result Text Discovered
  unfolding add_test text_eq strip_metadata
  discover_expr (Expr.metadata (Expr.string s) v target) found =
      if text_eq s (codes "test")
      then add_test (strip_metadata target) found
      else keep_expr (Expr.metadata (Expr.string s) v target) found
  discover_expr expr found = keep_expr expr found

  unfoldable pub discover_tests : List Expr → Result Text Discovered
  unfolding discover_expr
  discover_tests [] = ok ([], [])
  discover_tests (e ∷ es) = discover_expr e (discover_tests es)
