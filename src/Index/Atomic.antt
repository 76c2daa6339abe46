-- ===== src/Index/Atomic.antt =====
-- src/bin/mcp_server.rs: what a request that fails leaves.
use llmlang.Prelude.{inr}
use llmlang.Prelude.{inl}
use llmlang.Prelude.{◌⊎◌}
use llmlang.Prelude.{
  ◌≡◌, refl, subst, Bool, true, false, ◌||◌, Text, codes, text_eq, List, [], Option, none, some,
  if◌then◌else◌,
}
use llmlang.Ast.{Expr}
use llmlang.Error.{Result, ok, err, Outcome}
use llmlang.Lexer.{new_lexer}
use llmlang.Parser.{Parser, new_parser, parse_module}
use llmlang.Index.Codebase.{resolve_function}
use llmlang.Testing.{run_tests}
use llmlang.Index.Queries.{
  McpError, internal, search_symbols, get_definition, find_callers, structural_search,
}
use llmlang.Index.Tools.{
  Server, World, Handled, on_ok, required, replied, analyze_path, diagnostics, get_diagnostics,
  run_symbol_tests, after_write, write_back, patch_parsed, patch_started, patch_file, patch_symbol,
  parsed, joined, file_content, replace_body,
}
use llmlang.Index.Requests.{
  text_field, with_text, with_field, answer, call_analyze, call_search, call_definition,
  call_diagnostics, call_callers, call_structural, call_tests, call_patch, call_tool, read_resource,
  with_params, handle_method,
}

module _ {F J S : Type 0} (s : Server F J S) (w : World F) where
  -- The files are as they were, or as one write that failed left them.
  abbrev pub FailedWrite : F → Type 0
  FailedWrite files =
      (files ≡ w.files)
      ⊎ ((path content reason : Text) × (s.write w.files path content ≡ (files, err reason)))

  -- An error comes with the index as it was, and the files but for a failed write.
  abbrev IsAtomic : Handled F → Type 0
  IsAtomic none = Unit
  IsAtomic (some (ok _, w')) = Unit
  IsAtomic (some (err _, w')) = (w'.index ≡ w.index) × FailedWrite w'.files

  unchanged : (w.index ≡ w.index) × FailedWrite w.files
  unchanged = (refl, inl refl)

  if-IsAtomic :
      (b : Bool) (h k : Handled F) → IsAtomic h → IsAtomic k → IsAtomic (if b then h else k)
  if-IsAtomic true h k a c = a
  if-IsAtomic false h k a c = c

  on_ok-IsAtomic :
      {E A : Type 0} (f : E → McpError) (r : Result E A) (k : A → Handled F)
      → ((a : A) → IsAtomic (k a))
      → IsAtomic (on_ok f w r k)
  unfolding on_ok
  on_ok-IsAtomic f (err e) k h = unchanged
  on_ok-IsAtomic f (ok a) k h = h a

  required-IsAtomic :
      {A : Type 0} (missing : Text) (o : Option A) (k : A → Handled F)
      → ((a : A) → IsAtomic (k a))
      → IsAtomic (required missing w o k)
  unfolding required
  required-IsAtomic missing none k h = unchanged
  required-IsAtomic missing (some a) k h = h a

  replied-IsAtomic : (f : Text → Text) (o : Option (Text × World F)) → IsAtomic (replied f o)
  unfolding replied
  replied-IsAtomic f none = tt
  replied-IsAtomic f (some (t, w')) = tt

  text-IsAtomic :
      (args : J) (name missing : Text) (k : Text → Handled F)
      → ((t : Text) → IsAtomic (k t))
      → IsAtomic (with_text s args name missing w k)
  unfolding with_text
  text-IsAtomic args name missing k h = required-IsAtomic missing (text_field s args name) k h

  field-IsAtomic :
      (args : J) (name missing : Text) (k : J → Handled F)
      → ((v : J) → IsAtomic (k v))
      → IsAtomic (with_field s args name missing w k)
  unfolding with_field
  field-IsAtomic args name missing k h = required-IsAtomic missing (s.field args name) k h

  answer-IsAtomic : (r : Result McpError Text) → IsAtomic (answer s w r)
  unfolding answer
  answer-IsAtomic (ok t) = tt
  answer-IsAtomic (err e) = unchanged

  diagnostics-IsAtomic : (o : Outcome (List Expr × Parser)) → IsAtomic (diagnostics s o w)
  unfolding diagnostics
  diagnostics-IsAtomic (Outcome.ok _) = tt
  diagnostics-IsAtomic (Outcome.err e) = tt
  diagnostics-IsAtomic Outcome.panic = tt
  diagnostics-IsAtomic Outcome.out_of_fuel = tt

  write_back-IsAtomic :
      (name path : Text) (o : Option (List Expr)) → IsAtomic (write_back s name path o w)
  unfolding write_back after_write
  write_back-IsAtomic name path none = unchanged
  write_back-IsAtomic name path (some exprs) = written (s.write w.files path content) refl
    where
      content : Text
      content = file_content s exprs

      written :
          (r : F × Result {0} Text Unit)
          → s.write w.files path content ≡ r
          → IsAtomic (
              on_ok internal
                (record w { files = r.0 })
                r.1
                λ _. after_write s name path (record w { files = r.0 }))
      written (files, ok _) e = replied-IsAtomic _ _
      written (files, err reason) e = (refl, inr (path, content, reason, e))

  parsed-IsAtomic :
      (name : Text) (body : Expr) (path : Text) (o : Outcome (List Expr × Parser))
      → IsAtomic (patch_parsed s name body path o w)
  unfolding patch_parsed
  parsed-IsAtomic name body path (Outcome.ok (exprs, _)) =
      write_back-IsAtomic name path (replace_body name body exprs)
  parsed-IsAtomic name body path (Outcome.err e) = unchanged
  parsed-IsAtomic name body path Outcome.panic = tt
  parsed-IsAtomic name body path Outcome.out_of_fuel = tt

  started-IsAtomic :
      (name : Text) (body : Expr) (path : Text) (o : Outcome Parser)
      → IsAtomic (patch_started s name body path o w)
  unfolding patch_started
  started-IsAtomic name body path (Outcome.ok p) =
      parsed-IsAtomic name body path (parse_module s.host p)
  started-IsAtomic name body path (Outcome.err e) = unchanged
  started-IsAtomic name body path Outcome.panic = tt
  started-IsAtomic name body path Outcome.out_of_fuel = tt

  patch-IsAtomic :
      (name : Text) (body : Expr) (path : Option Text) → IsAtomic (patch_symbol s name body path w)
  unfolding patch_symbol patch_file
  patch-IsAtomic name body path =
      on_ok-IsAtomic _ (resolve_function s.canonicalize name path w.index) _ λ meta.
        on_ok-IsAtomic _ (s.read_to_string w.files meta.path) _ λ content.
          started-IsAtomic name body meta.path (new_parser s.host (new_lexer content) meta.path)

  analyze-IsAtomic : (args : J) → IsAtomic (call_analyze s args w)
  unfolding call_analyze
  analyze-IsAtomic args =
      text-IsAtomic args _ _ _ λ path. replied-IsAtomic _ (analyze_path s path w)

  search-IsAtomic : (args : J) → IsAtomic (call_search s args w)
  unfolding call_search
  search-IsAtomic args =
      text-IsAtomic args _ _ _
        λ query. answer-IsAtomic (ok (search_symbols s.listing query w.index))

  definition-IsAtomic : (args : J) → IsAtomic (call_definition s args w)
  unfolding call_definition
  definition-IsAtomic args =
      text-IsAtomic args _ _ _ λ name. answer-IsAtomic (get_definition s.listing name w.index)

  diagnosed-IsAtomic : (args : J) → IsAtomic (call_diagnostics s args w)
  unfolding call_diagnostics get_diagnostics
  diagnosed-IsAtomic args = text-IsAtomic args _ _ _ λ path.
      on_ok-IsAtomic _ (s.read_to_string w.files path) _
        λ content. diagnostics-IsAtomic (parsed s content path)

  callers-IsAtomic : (args : J) → IsAtomic (call_callers s args w)
  unfolding call_callers
  callers-IsAtomic args =
      text-IsAtomic args _ _ _
        λ symbol. answer-IsAtomic (ok (find_callers s.listing symbol w.index))

  structural-IsAtomic : (args : J) → IsAtomic (call_structural s args w)
  unfolding call_structural
  structural-IsAtomic args =
      text-IsAtomic args _ _ _ λ name. answer-IsAtomic (structural_search s.listing name w.index)

  tests-IsAtomic : (args : J) → IsAtomic (call_tests s args w)
  unfolding call_tests run_symbol_tests
  tests-IsAtomic args = text-IsAtomic args _ _ _ λ path.
      on_ok-IsAtomic internal
        (joined s (run_tests s.suite path (text_field s args (codes "test_data_dir")) [])) _
        λ report. tt

  call_patch-IsAtomic : (args : J) → IsAtomic (call_patch s args w)
  unfolding call_patch
  call_patch-IsAtomic args = text-IsAtomic args _ _ _ λ name. field-IsAtomic args _ _ _ λ value.
      on_ok-IsAtomic _ (s.from_value value) _
        λ body. patch-IsAtomic name body (text_field s args (codes "path"))

  tool-IsAtomic : (name : Text) (args : J) → IsAtomic (call_tool s name args w)
  unfolding call_tool
  tool-IsAtomic name args =
      if-IsAtomic (text_eq name (codes "analyze_codebase")) _ _ (analyze-IsAtomic args) (
        if-IsAtomic (text_eq name (codes "search_symbols")) _ _ (search-IsAtomic args) (
          if-IsAtomic (text_eq name (codes "get_definition")) _ _ (definition-IsAtomic args) (
            if-IsAtomic (text_eq name (codes "get_diagnostics")) _ _ (diagnosed-IsAtomic args) (
              if-IsAtomic (text_eq name (codes "find_callers")) _ _ (callers-IsAtomic args) (
                if-IsAtomic (text_eq name (codes "structural_search")) _ _
                  (structural-IsAtomic args)
                  (if-IsAtomic (text_eq name (codes "run_symbol_tests")) _ _ (tests-IsAtomic args) (
                    if-IsAtomic (text_eq name (codes "patch_symbol")) _ _ (call_patch-IsAtomic args)
                      unchanged)))))))

  resource-IsAtomic : (uri : Text) → IsAtomic (read_resource s uri w)
  unfolding read_resource
  resource-IsAtomic uri =
      if-IsAtomic (text_eq uri (codes "llm://spec") || text_eq uri (codes "llm://fundamentals")) _ _
        tt (if-IsAtomic (text_eq uri (codes "llm://agent-workflow")) _ _ tt unchanged)

  method-IsAtomic : (method : Text) (params : Option J) → IsAtomic (handle_method s method params w)
  unfolding handle_method with_params
  method-IsAtomic method params = if-IsAtomic (text_eq method (codes "resources/list")) _ _ tt (
      if-IsAtomic (text_eq method (codes "resources/read")) _ _
        (required-IsAtomic _ params _ λ p. text-IsAtomic p _ _ _ resource-IsAtomic)
        (if-IsAtomic (text_eq method (codes "tools/list")) _ _ tt (
          if-IsAtomic (text_eq method (codes "tools/call")) _ _
            (required-IsAtomic _ params _ λ p.
              text-IsAtomic p _ _ _ λ name. field-IsAtomic p _ _ _ λ args. tool-IsAtomic name args)
            unchanged)))

  -- A request that is answered by an error leaves the index as it was, and the files, the work
  -- directory of a test run aside, as they were or as one failed write of a file left them: no tool
  -- indexes anything, or writes with success, before a step that can still fail.
  pub handle_method-error :
      (method : Text) (params : Option J) (e : McpError) (w' : World F)
      → handle_method s method params w ≡ some (err e, w')
      → (w'.index ≡ w.index) × FailedWrite w'.files
  handle_method-error method params e w' h = subst IsAtomic h (method-IsAtomic method params)
