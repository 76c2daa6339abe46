-- ===== src/Codegen/Names.antt =====
-- src/compiler/codegen/symbol.rs: names of functions, imports and exports, and the signature file;
-- src/compiler/codegen/shape.rs `gen_shape`. The functions of the LLVM module are their names with the
-- numbers of their parameters; adding one is LLVM's, a parameter, as are the stem of a path and the
-- hash of the input path in hexadecimal.
use llmlang.Prelude.{
  ℕ, Bool, true, false, ◌||◌, Text, codes, text_eq, List, [], ◌∷◌, ◌++◌, Option, none, some, any,
  length, if◌then◌else◌, lookup, insert, strip_prefix, starts_with, join, print_decimal,
}
use llmlang.Ast.{Param, Expr}

-- A function with an expanded parameter, which is generated anew at each call.
pub record Template : Type 0 where
  pub params : List Param
  pub body : Expr

-- What the code generator keeps about names.
pub record Symbols : Type 0 where
  pub shapes : List (Text × List Text)
  pub templates : List (Text × Template)
  pub has_exports : Bool
  pub exports : List Text
  pub imports : List (Text × Text)
  pub functions : List (Text × ℕ)

-- `module.get_function(name).is_some()`
unfoldable pub has_function : Text → List (Text × ℕ) → Bool
unfolding lookup
has_function name fs = elim (lookup name fs) [ none ↦ false | some _ ↦ true ]

-- The modules whose symbols keep their names.
abbrev pub is_plain : Text → Bool
is_plain mod_name = text_eq mod_name (codes "main") || text_eq mod_name (codes "test")

abbrev pub namespaced : Text → Text → Text
namespaced mod_name name = if is_plain mod_name then name else mod_name ++ (codes "_" ++ name)

-- A source file: the stem of its path, and the hash of the path in hexadecimal.
pub record SourceFile : Type 0 where
  pub file_stem : Option Text
  pub hash : Text

unfoldable pub get_module_name : SourceFile → Text
get_module_name file = elim file.file_stem [ none ↦ codes "main" | some s ↦ s ]

unfoldable pub mangle_name : SourceFile → Text → Text
unfolding text_eq
mangle_name file name =
    if text_eq name (codes "main")
    then name
    else codes "__llm_" ++ (file.hash ++ (codes "_" ++ name))

unfoldable pub resolve_local : SourceFile → List (Text × ℕ) → Text → Text
unfolding has_function get_module_name mangle_name
resolve_local file fs name =
    if has_function (namespaced (get_module_name file) name) fs
    then namespaced (get_module_name file) name
    else if has_function (mangle_name file name) fs
    then mangle_name file name
    else if has_function name fs
    then name
    else mangle_name file name

unfoldable pub resolve_func_name : SourceFile → Symbols → Text → Text
unfolding lookup resolve_local
resolve_func_name file sym name = elim (lookup name sym.imports) [
  | some mod_name ↦ namespaced mod_name name
  | none ↦ resolve_local file sym.functions name
]

abbrev pub AddFunction : Type 0
AddFunction = Text → ℕ → List (Text × ℕ) → List (Text × ℕ)

unfoldable pub gen_import : AddFunction → Text → Text → ℕ → Symbols → Symbols
unfolding insert
gen_import add_function module_alias symbol_name arity sym = record sym {
  imports = insert symbol_name module_alias sym.imports;
  functions = add_function (namespaced module_alias symbol_name) arity sym.functions;
}

unfoldable pub export_name : Text → Bool → Symbols → Symbols
export_name name exported sym =
    if exported
    then record sym { has_exports = true; exports = sym.exports ++ (name ∷ []) }
    else sym

unfoldable pub gen_shape : Text → List Text → Bool → Symbols → Symbols
unfolding export_name insert
gen_shape name fields exported sym =
    let sym' = export_name name exported sym in
    record sym' { shapes = insert name fields sym'.shapes }

-- The name that `gen_function` gives to a function.
unfoldable pub final_name : SourceFile → Text → Bool → Text
unfolding text_eq get_module_name mangle_name
final_name file name exported =
    if text_eq name (codes "main")
    then name
    else if exported
    then namespaced (get_module_name file) name
    else mangle_name file name

abbrev pub has_expand : List Param → Bool
has_expand params = any (λ p. p.expand) params

-- What `gen_function` does with the names: a function with an expanded parameter is kept as a template,
-- any other is declared, unless a declaration is there.
unfoldable pub declare_function :
    AddFunction → SourceFile → Text → List Param → Expr → Bool → Symbols → Symbols
unfolding export_name final_name insert has_function
declare_function add_function file name params body exported sym =
    let sym' = export_name name exported sym in
    let full_name = final_name file name exported in
    if has_expand params
    then record sym' {
      templates = insert full_name (record { params = params; body = body }) sym'.templates;
      functions = add_function full_name 0 sym'.functions;
    }
    else if has_function full_name sym'.functions
    then sym'
    else record sym' { functions = add_function full_name (length params) sym'.functions }

-- The prefix of the module's exported names.
unfoldable pub prefix_of : SourceFile → Text
unfolding get_module_name
prefix_of file = if is_plain (get_module_name file) then [] else get_module_name file ++ codes "_"

abbrev is_empty : Text → Bool
is_empty [] = true
is_empty (_ ∷ _) = false

unfoldable pub clean_name : Text → Text → Text
clean_name prefix name =
    if is_empty prefix
    then name
    else elim (strip_prefix prefix name) [ none ↦ name | some rest ↦ rest ]

abbrev pub contains_name : List Text → Text → Bool
contains_name names name = any (λ n. text_eq n name) names

abbrev pub blank : Text
blank = codes " "

unfoldable pub shape_line : Text → List Text → Text
shape_line name fields = codes "# " ++ (name ++ (blank ++ (join blank fields ++ codes "\n")))

unfoldable pub func_line : Text → ℕ → Text
func_line name arity = codes ": " ++ (name ++ (blank ++ (print_decimal arity ++ codes "\n")))

-- What of a list is written, under its clean names.
unfoldable pub exported_entries :
    {A : Type 0} → List Text → Text → List (Text × A) → List (Text × A)
unfolding clean_name
exported_entries exports prefix [] = []
exported_entries exports prefix ((name, a) ∷ entries) =
    let rest = exported_entries exports prefix entries in
    if contains_name exports (clean_name prefix name)
    then (clean_name prefix name, a) ∷ rest
    else rest

unfoldable pub is_internal : Text → Bool
unfolding text_eq starts_with
is_internal name =
    text_eq name (codes "main")
    || starts_with (codes "trap_") name
    || starts_with (codes "parallel_") name
    || starts_with (codes "__llm_") name

unfoldable pub without_internal : List (Text × ℕ) → List (Text × ℕ)
unfolding is_internal
without_internal [] = []
without_internal ((name, arity) ∷ fs) =
    if is_internal name then without_internal fs else (name, arity) ∷ without_internal fs

abbrev pub arities : List (Text × Template) → List (Text × ℕ)
arities [] = []
arities ((name, t) ∷ ts) = (name, length t.params) ∷ arities ts

unfoldable pub shape_lines : List (Text × List Text) → Text
unfolding shape_line
shape_lines [] = []
shape_lines ((name, fields) ∷ rest) = shape_line name fields ++ shape_lines rest

unfoldable pub func_lines : List (Text × ℕ) → Text
unfolding func_line
func_lines [] = []
func_lines ((name, arity) ∷ rest) = func_line name arity ++ func_lines rest

-- The shapes and the templates are hash maps, which are listed in any order: here in that of the list.
unfoldable pub emit_signature_file : SourceFile → Symbols → Text
unfolding prefix_of exported_entries without_internal shape_lines func_lines
emit_signature_file file sym =
    shape_lines (exported_entries sym.exports (prefix_of file) sym.shapes)
    ++ (func_lines (exported_entries sym.exports (prefix_of file) (without_internal sym.functions))
        ++ func_lines (exported_entries sym.exports (prefix_of file) (arities sym.templates)))
