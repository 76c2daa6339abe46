-- ===== src/Index/Requests.antt =====
-- src/bin/mcp_server.rs: `handle_method` with the dispatch of the tools.
use llmlang.Prelude.{Text, codes, text_eq, ◌++◌, Option, none, some, ◌||◌, if◌then◌else◌}
use llmlang.Error.{Result, ok, err}
use llmlang.Index.Queries.{
  ErrorCode, McpError, invalid, search_symbols, get_definition, find_callers, structural_search,
}
use llmlang.Index.Tools.{
  Server, World, Reply, Handled, on_ok, required, replied, analyze_path, get_diagnostics,
  run_symbol_tests, patch_symbol,
}

module _ {F J S : Type 0} (s : Server F J S) where
  unfoldable pub text_field : J → Text → Option Text
  text_field args name = elim (s.field args name) [ none ↦ none | some v ↦ s.as_str v ]

  -- `args.get(name).and_then(|v| v.as_str()).ok_or_else(..)?`
  unfoldable pub with_text : J → Text → Text → World F → (Text → Handled F) → Handled F
  unfolding text_field required
  with_text args name missing w k = required missing w (text_field args name) k

  unfoldable pub with_field : J → Text → Text → World F → (J → Handled F) → Handled F
  unfolding required
  with_field args name missing w k = required missing w (s.field args name) k

  unfoldable pub answer : World F → Result McpError Text → Handled F
  answer w (ok text) = some (ok (Reply.text_content text), w)
  answer w (err e) = some (err e, w)

  unfoldable pub call_analyze : J → World F → Handled F
  unfolding analyze_path replied with_text
  call_analyze args w =
      with_text args (codes "path") (codes "Missing path") w
        λ path. replied (λ text. text) (analyze_path s path w)

  unfoldable pub call_search : J → World F → Handled F
  unfolding with_text answer search_symbols
  call_search args w =
      with_text args (codes "query") (codes "Missing query") w
        λ query. answer w (ok (search_symbols s.listing query w.index))

  unfoldable pub call_definition : J → World F → Handled F
  unfolding with_text answer get_definition
  call_definition args w =
      with_text args (codes "name") (codes "Missing name") w
        λ name. answer w (get_definition s.listing name w.index)

  unfoldable pub call_diagnostics : J → World F → Handled F
  unfolding with_text get_diagnostics
  call_diagnostics args w =
      with_text args (codes "path") (codes "Missing path") w λ path. get_diagnostics s path w

  unfoldable pub call_callers : J → World F → Handled F
  unfolding with_text answer find_callers
  call_callers args w =
      with_text args (codes "symbol") (codes "Missing symbol") w
        λ symbol. answer w (ok (find_callers s.listing symbol w.index))

  unfoldable pub call_structural : J → World F → Handled F
  unfolding with_text answer structural_search
  call_structural args w =
      with_text args (codes "function_name") (codes "Missing function_name") w
        λ name. answer w (structural_search s.listing name w.index)

  unfoldable pub call_tests : J → World F → Handled F
  unfolding with_text text_field run_symbol_tests
  call_tests args w =
      with_text args (codes "path") (codes "Missing path") w
        λ path. run_symbol_tests s path (text_field args (codes "test_data_dir")) w

  unfoldable pub call_patch : J → World F → Handled F
  unfolding with_text with_field text_field on_ok patch_symbol
  call_patch args w =
      with_text args (codes "function_name") (codes "Missing function_name") w λ name.
        with_field args (codes "new_body_ast") (codes "Missing new_body_ast") w λ value.
          on_ok (λ e. invalid (codes "Invalid AST: " ++ e)) w (s.from_value value)
            λ body. patch_symbol s name body (text_field args (codes "path")) w

  unfoldable pub call_tool : Text → J → World F → Handled F
  unfolding text_eq call_analyze call_search call_definition call_diagnostics call_callers
      call_structural call_tests call_patch
  call_tool name args w =
      if text_eq name (codes "analyze_codebase")
      then call_analyze args w
      else if text_eq name (codes "search_symbols")
      then call_search args w
      else if text_eq name (codes "get_definition")
      then call_definition args w
      else if text_eq name (codes "get_diagnostics")
      then call_diagnostics args w
      else if text_eq name (codes "find_callers")
      then call_callers args w
      else if text_eq name (codes "structural_search")
      then call_structural args w
      else if text_eq name (codes "run_symbol_tests")
      then call_tests args w
      else if text_eq name (codes "patch_symbol")
      then call_patch args w
      else some (
        err (record {
          code = ErrorCode.method_not_found;
          message = codes "Tool " ++ (name ++ codes " not found");
        }),
        w,
      )

  -- The document of a URI.
  unfoldable pub read_resource : Text → World F → Handled F
  unfolding text_eq
  read_resource uri w =
      if text_eq uri (codes "llm://spec") || text_eq uri (codes "llm://fundamentals")
      then some (ok (Reply.spec_document uri), w)
      else if text_eq uri (codes "llm://agent-workflow")
      then some (ok (Reply.agent_guide uri), w)
      else some (err (invalid (codes "Unknown resource: " ++ uri)), w)

  unfoldable pub with_params : Option J → World F → (J → Handled F) → Handled F
  unfolding required
  with_params params w k = required (codes "Missing params") w params k

  unfoldable pub handle_method : Text → Option J → World F → Handled F
  unfolding text_eq with_params with_text with_field read_resource call_tool
  handle_method method params w =
      if text_eq method (codes "resources/list")
      then some (ok Reply.resource_list, w)
      else if text_eq method (codes "resources/read")
      then with_params params w
          (λ p. with_text p (codes "uri") (codes "Missing uri") w λ uri. read_resource uri w)
      else if text_eq method (codes "tools/list")
      then some (ok Reply.tool_list, w)
      else if text_eq method (codes "tools/call")
      then with_params params w (λ p.
        with_text p (codes "name") (codes "Missing tool name") w λ name.
          with_field p (codes "arguments") (codes "Missing arguments") w
            λ args. call_tool name args w)
      else some (
        err (record {
          code = ErrorCode.method_not_found;
          message = codes "Method " ++ (method ++ codes " not found");
        }),
        w,
      )
