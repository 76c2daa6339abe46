-- ===== src/Tests/Serving.antt =====
-- The router, the test runner, the index and the code generator's stack at concrete inputs.
use llmlang.Index.{SymbolMetadata}
use llmlang.Prelude.{
  ◌<◌, ◌⊎◌, ℕ, ◌≡◌, refl, true, false, Text, codes, text_eq, contains_key, List, [], ◌∷◌, ◌++◌, map,
  All, none, some,
}
use llmlang.Prelude.Int.{pos}
use llmlang.Error.{ok}
use llmlang.Ast.{Expr, Exprs}
use llmlang.Parser.{Route, dispatch_tree, loop_def, route_branch}
use llmlang.Verify.{Tables, VariableState, VerificationContext, infer_shape, captured, verify_body}
use llmlang.Verify.Routing.{verify_body-loop_def}
use llmlang.Codegen.Growth.{Raises, infer_constraints-Raises}
use llmlang.Codegen.Settles.{IsSettled, after, analyze_module_types-settles}
use llmlang.Codegen.{
  Types, init_types, round, analyze_module_types, Ptrs, infer_constraints, StackItem,
  infer_item_shape, captured_items,
}
use llmlang.Codegen.Agreement.{states, shapes, captured-items}
use llmlang.Testing.{DiscoveredTest, discover_tests}
use llmlang.Testing.Split.{production_of, targets_of, IsRunnable, discover_tests-splits}
use llmlang.Index.{
  CodebaseIndex, new_index, metadata_of, index_exprs, paths_match, resolve_function,
}
use llmlang.Index.Replace.{OtherFiles, defined_in, definitions, index_exprs-replaces}
use llmlang.Index.Resolve.{resolve_function-index_exprs}

abbrev handlers : Tables
handlers = record { shapes = []; functions = (codes "home", 1) ∷ (codes "_rt_loop_1", 1) ∷ [] }

abbrev home : Expr
home = Expr.identifier (codes "home")

abbrev routes : List Route
routes =
    record {
      method = Expr.string (codes "GET");
      path = Expr.string (codes "/u/:id");
      handler = home;
    }
    ∷ []

abbrev fallback_tree : Expr
fallback_tree = Expr.seq (Expr.apply home (Exprs.cons (Expr.move (Expr.de_bruijn 3)) Exprs.nil)) (
    Expr.apply (Expr.identifier (codes "_rt_loop_1"))
      (Exprs.cons (Expr.move (Expr.de_bruijn 4)) Exprs.nil))

abbrev tree : Expr
tree = route_branch (codes "_rt_loop_1") (codes "GET") (codes "/u/:id") home fallback_tree

verify_body-loop_def_example :
    verify_body handlers (codes "a.llm") (loop_def (codes "_rt_loop_1") tree) ≡ ok tt
unfolding dispatch_tree contains_key text_eq
verify_body-loop_def_example =
    verify_body-loop_def handlers (codes "a.llm") (codes "_rt_loop_1") home tree routes refl
      (codes "home", refl, refl) ((codes "home", refl, refl), tt) refl

abbrev no_hash : Text → Text
no_hash t = codes "h" ++ t

abbrev tagged : List Expr
tagged =
    Expr.metadata (Expr.string (codes "test")) (Expr.string (codes "one"))
      (Expr.define (codes "t") [] (Expr.integer (pos 1)) false)
    ∷ Expr.define (codes "f") [] (Expr.integer (pos 2)) false
    ∷ []

abbrev found : List DiscoveredTest
found =
    record {
      name = codes "t";
      fingerprint = codes "hi";
      define = Expr.define (codes "t") [] (Expr.integer (pos 1)) false;
    }
    ∷ []

discovered :
    discover_tests no_hash tagged
    ≡ ok (found, Expr.define (codes "f") [] (Expr.integer (pos 2)) false ∷ [])
unfolding discover_tests
discovered = refl

discover_tests-splits_example :
    (Expr.define (codes "f") [] (Expr.integer (pos 2)) false ∷ [] ≡ production_of tagged)
    × (map (λ t. t.define) found ≡ targets_of tagged)
    × All (IsRunnable no_hash) found
discover_tests-splits_example =
    discover_tests-splits no_hash tagged found
      (Expr.define (codes "f") [] (Expr.integer (pos 2)) false ∷ []) discovered

abbrev file : List Expr
file =
    Expr.define (codes "f") [] (Expr.integer (pos 1)) false ∷ Expr.shape (codes "s") [] false ∷ []

abbrev indexed : CodebaseIndex
indexed = (index_exprs no_hash (codes "b.llm") file new_index).1

index_exprs-replaces_example :
    ((index_exprs no_hash (codes "a.llm") file indexed).0
      ≡ definitions no_hash (codes "a.llm") file)
    × ((name : Text)
        → (others : List SymbolMetadata) × ((index_exprs no_hash
                (codes "a.llm")
                file
                indexed).1.functions
              name
            ≡ others ++ defined_in no_hash (codes "a.llm") name file)
          × OtherFiles (codes "a.llm") (indexed.functions name) others)
index_exprs-replaces_example = index_exprs-replaces no_hash (codes "a.llm") file indexed

resolve_function-index_exprs_example :
    resolve_function
      (λ p. none)
      (codes "f")
      (some (codes "a.llm"))
      (index_exprs no_hash (codes "a.llm") file indexed).1
    ≡ ok (metadata_of no_hash (codes "a.llm") (Expr.integer (pos 1)))
unfolding index_exprs new_index paths_match
resolve_function-index_exprs_example =
    resolve_function-index_exprs no_hash (λ p. none) (codes "a.llm") (codes "f") file indexed
      (metadata_of no_hash (codes "a.llm") (Expr.integer (pos 1))) refl (refl, tt)

abbrev items : List (StackItem ℕ)
items =
    record { value = 7; state = VariableState.moved; shape = none; is_ptr = false }
    ∷ record { value = 8; state = VariableState.available; shape = some (codes "s"); is_ptr = true }
    ∷ []

abbrev context : VerificationContext
context = record {
  shapes = [];
  functions = [];
  stack = VariableState.moved ∷ VariableState.available ∷ [];
  stack_shapes = none ∷ some (codes "s") ∷ [];
  expand_map = [];
}

captured-items_example :
    ((e : Expr) → infer_shape e context.stack_shapes ≡ infer_item_shape e items)
    × ((captured context).stack ≡ states (captured_items (λ k. k) items))
    × ((captured context).stack_shapes ≡ shapes (captured_items (λ k. k) items))
captured-items_example = captured-items (λ k. k) items context refl refl

abbrev no_pointers : Ptrs
no_pointers = record { stack = false ∷ true ∷ []; params = true ∷ false ∷ [] }

abbrev measured : Expr
measured = Expr.let_in (codes "n") (Expr.len (Expr.borrow (Expr.de_bruijn 0))) (Expr.de_bruijn 0)

infer_constraints-Raises_example :
    Raises no_pointers.stack (infer_constraints (λ n. n) [] [] measured no_pointers).stack
    × Raises no_pointers.params (infer_constraints (λ n. n) [] [] measured no_pointers).params
infer_constraints-Raises_example = infer_constraints-Raises (λ n. n) [] [] measured no_pointers

abbrev no_types : Types
no_types = record { fn_returns_ptr = []; fn_param_ptrs = [] }

-- `f` takes the length of its parameter; `g` hands its own on to `f`.
abbrev calls : List Expr
calls =
    Expr.define (codes "g") (record { name = codes "y"; expand = false } ∷ [])
      (Expr.apply (Expr.identifier (codes "f"))
        (Exprs.cons (Expr.borrow (Expr.de_bruijn 0)) Exprs.nil))
      false
    ∷ Expr.define (codes "f") (record { name = codes "x"; expand = false } ∷ [])
        (Expr.len (Expr.de_bruijn 0)) false
    ∷ []

-- Both parameters hold pointers, which takes a second iteration.
calls_test :
    (analyze_module_types (λ n. n) (λ n. n) calls no_types).fn_param_ptrs
    ≡ (codes "g", true ∷ []) ∷ (codes "f", true ∷ []) ∷ []
unfolding analyze_module_types
calls_test = refl

analyze_module_types-settles_example :
    IsSettled (λ n. n) (λ n. n) calls (analyze_module_types (λ n. n) (λ n. n) calls no_types)
    ⊎ ((k : ℕ)
        → k < 100
        → (round
            (λ n. n)
            (λ n. n)
            calls
            (after (λ n. n) (λ n. n) k calls (init_types (λ n. n) (λ n. n) calls no_types))).0
          ≡ true)
analyze_module_types-settles_example = analyze_module_types-settles (λ n. n) (λ n. n) calls no_types
