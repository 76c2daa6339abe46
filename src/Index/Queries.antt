-- ===== src/Index/Queries.antt =====
-- src/bin/mcp_server.rs: the answers of the tools that only read the index. The order in which a `HashMap`
-- lists its keys is a parameter, as is what `{:?}` writes.
use llmlang.Prelude.{
  Bool, true, false, ◌&&◌, ◌||◌, Text, codes, text_eq, List, [], ◌∷◌, ◌++◌, Option, none, some, any,
  map, ltb, ◌==◌, if◌then◌else◌, join, contains_text, print_decimal,
}
use llmlang.Ast.{Expr}
use llmlang.Error.{Result, ok, err}
use llmlang.Index.Codebase.{SymbolMetadata, ShapeMetadata, CodebaseIndex}

pub data ErrorCode : Type 0 where
  invalid_params internal_error method_not_found : ErrorCode

pub record McpError : Type 0 where
  pub code : ErrorCode
  pub message : Text

abbrev pub invalid : Text → McpError
invalid message = record { code = ErrorCode.invalid_params; message = message }

abbrev pub internal : Text → McpError
internal message = record { code = ErrorCode.internal_error; message = message }

-- The order of `sort` on strings.
unfoldable pub text_less : Text → Text → Bool
text_less _ [] = false
text_less [] (_ ∷ _) = true
text_less (a ∷ s) (b ∷ t) = ltb a b || (a == b && text_less s t)

unfoldable pub insert_sorted : Text → List Text → List Text
unfolding text_less
insert_sorted t [] = t ∷ []
insert_sorted t (u ∷ us) = if text_less u t then u ∷ insert_sorted t us else t ∷ u ∷ us

unfoldable pub sort : List Text → List Text
unfolding insert_sorted
sort [] = []
sort (t ∷ ts) = insert_sorted t (sort ts)

abbrev pub filter_names : (Text → Bool) → List Text → List Text
filter_names p [] = []
filter_names p (n ∷ ns) = let rest = filter_names p ns in if p n then n ∷ rest else rest

-- How the index is listed and written.
pub record Listing : Type 0 where
  pub function_keys : CodebaseIndex → List Text
  pub shape_keys : CodebaseIndex → List Text
  pub debug_expr : Expr → Text
  pub debug_texts : List Text → Text

module _ (l : Listing) where
  unfoldable pub search_symbols : Text → CodebaseIndex → Text
  unfolding contains_text join
  search_symbols query index = join (codes "\n") (
      map (λ n. codes "Function: " ++ n)
        (filter_names (contains_text query) (l.function_keys index))
      ++ map (λ n. codes "Shape: " ++ n) (filter_names (contains_text query) (l.shape_keys index)))

  unfoldable pub function_text : Text → SymbolMetadata → Text
  unfolding print_decimal
  function_text name meta =
      codes "Function: "
      ++ (name
          ++ (codes "\nPath: "
              ++ (meta.path
                  ++ (codes "\nLine: "
                      ++ (print_decimal meta.line
                          ++ (codes "\nAST: " ++ l.debug_expr meta.expr))))))

  unfoldable pub shape_text : Text → ShapeMetadata → Text
  unfolding print_decimal
  shape_text name shape =
      codes "Shape: "
      ++ (name
          ++ (codes "\nPath: "
              ++ (shape.path
                  ++ (codes "\nLine: "
                      ++ (print_decimal shape.line
                          ++ (codes "\nFields: " ++ l.debug_texts shape.fields))))))

  unfoldable pub shape_definition : Text → Option ShapeMetadata → Result McpError Text
  unfolding shape_text
  shape_definition name (some shape) = ok (shape_text name shape)
  shape_definition name none = err (invalid (codes "Symbol not found"))

  unfoldable pub definition_among :
      Text → Option ShapeMetadata → List SymbolMetadata → Result McpError Text
  unfolding function_text shape_definition join
  definition_among name shape [] = shape_definition name shape
  definition_among name shape (m ∷ ms) =
      ok (join (codes "\n---\n") (map (function_text name) (m ∷ ms)))

  unfoldable pub get_definition : Text → CodebaseIndex → Result McpError Text
  unfolding definition_among
  get_definition name index = definition_among name (index.shapes name) (index.functions name)

  abbrev pub calls_symbol : Text → SymbolMetadata → Bool
  calls_symbol symbol m = any (λ c. text_eq c symbol) m.calls

  -- The sorted names of the callers.
  unfoldable pub callers : Text → CodebaseIndex → List Text
  unfolding text_eq sort
  callers symbol index =
      sort
        (filter_names (λ n. any (calls_symbol symbol) (index.functions n)) (l.function_keys index))

  unfoldable pub find_callers : Text → CodebaseIndex → Text
  unfolding callers
  find_callers symbol index =
      codes "Callers of " ++ (symbol ++ (codes ": " ++ l.debug_texts (callers symbol index)))

  abbrev pub shares_fingerprint : List SymbolMetadata → SymbolMetadata → Bool
  shares_fingerprint metas m = any (λ t. text_eq t.fingerprint m.fingerprint) metas

  -- The sorted names of the functions with the structure of one of the entries.
  unfoldable pub same_structure : List SymbolMetadata → CodebaseIndex → List Text
  unfolding text_eq sort
  same_structure metas index = sort (
      filter_names (λ n. any (shares_fingerprint metas) (index.functions n))
        (l.function_keys index))

  unfoldable pub search_among : Text → CodebaseIndex → List SymbolMetadata → Result McpError Text
  unfolding same_structure
  search_among function_name index [] = err (invalid (codes "Function not found"))
  search_among function_name index (m ∷ ms) = ok (
      codes "Functions with same structure as "
      ++ (function_name ++ (codes ": " ++ l.debug_texts (same_structure (m ∷ ms) index))))

  unfoldable pub structural_search : Text → CodebaseIndex → Result McpError Text
  unfolding search_among
  structural_search function_name index =
      search_among function_name index (index.functions function_name)
