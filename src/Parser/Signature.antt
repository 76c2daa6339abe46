-- ===== src/Parser/Signature.antt =====
-- src/compiler/parser/mod.rs: the signatures of imported modules. `trim` in front of
-- `split_whitespace` changes nothing and is left out.
use llmlang.Prelude.{
  ℕ, Bool, true, false, ◌&&◌, Text, codes, text_eq, List, [], ◌∷◌, ◌++◌, Option, none, some, ◌==◌,
  if◌then◌else◌, parse_usize,
}
use llmlang.Error.{Result, ok, err}
use llmlang.Lexer.{is_whitespace}

abbrev pub onto_first : ℕ → List Text → List Text
onto_first c [] = (c ∷ []) ∷ []
onto_first c (l ∷ ls) = (c ∷ l) ∷ ls

abbrev pub at_newline : Text → Bool
at_newline [] = false
at_newline (c ∷ _) = c == b'\n'

-- A line ends at its newline, with a carriage return in front of it; no line follows the last newline.
unfoldable pub lines : Text → List Text
lines [] = []
lines (c ∷ cs) =
    let r = lines cs in
    if c == b'\n' then [] ∷ r else if c == b'\r' && at_newline cs then r else onto_first c r

-- `split_whitespace`; the flag says whether a word is being read.
unfoldable pub words_from : Bool → Text → List Text
unfolding is_whitespace
words_from inside [] = if inside then [] ∷ [] else []
words_from inside (c ∷ cs) =
    let rest = words_from false cs in
    let more = words_from true cs in
    if is_whitespace c then (if inside then [] ∷ rest else rest) else onto_first c more

unfoldable pub words : Text → List Text
unfolding words_from
words = words_from false

pub record Signature : Type 0 where
  pub funcs : List (Text × ℕ)
  pub shapes : List (Text × List Text)

unfoldable pub add_func : List Text → Signature → Signature
unfolding parse_usize
add_func (name ∷ arity ∷ _) s = elim (parse_usize arity) [
  | none ↦ s
  | some n ↦ record s { funcs = (name, n) ∷ s.funcs }
]
add_func _ s = s

unfoldable pub add_shape : List Text → Signature → Signature
add_shape (_ ∷ name ∷ fields) s = record s { shapes = (name, fields) ∷ s.shapes }
add_shape _ s = s

-- One line, in front of what the lines behind it give.
unfoldable pub add_line : Text → Signature → Signature
unfolding words add_func add_shape
add_line [] s = s
add_line (c ∷ cs) s =
    if c == b':'
    then add_func (words cs) s
    else if c == b'#'
    then add_shape (words (c ∷ cs)) s
    else s

unfoldable pub add_lines : List Text → Signature
unfolding add_line
add_lines [] = record { funcs = []; shapes = [] }
add_lines (l ∷ ls) = add_line l (add_lines ls)

unfoldable pub read_signature : Text → Signature
unfolding lines add_lines
read_signature content = add_lines (lines content)

-- The first entry of a name, `iter().find`.
unfoldable pub find_named : {A : Type 0} → Text → List (Text × A) → Option A
unfolding text_eq
find_named name [] = none
find_named name ((n, a) ∷ rest) = if text_eq n name then some a else find_named name rest

-- The signatures of the modules that are built in.
unfoldable pub built_in : List (Text × Text)
built_in =
    (
      codes "http",
      codes
          ": get 1\n: post 2\n: serve 1\n: https_serve 4\n: accept 1\n: respond 2\n: decode 1\n: get_header 2\n",
    )
    ∷ (codes "db", codes ": connect 2\n: connect_binding 2\n: query 4\n: exec 3\n: error 1\n")
    ∷ (
      codes "json",
      codes
          ": parse 1\n: stringify 1\n: get_int 2\n: get_float 2\n: get_str 2\n: get_obj 2\n: get_arr 2\n: arr_len 1\n: arr_get 2\n",
    )
    ∷ (codes "file", codes ": open 2\n: close 1\n")
    ∷ (codes "crypto", codes ": sign 2\n: verify 3\n: encrypt 2\n: decrypt 2\n")
    ∷ (codes "cms", codes ": unwrap 2\n")
    ∷ []

-- The file system, as `FsSignatureResolver` uses it.
pub record FileSystem : Type 0 where
  pub join : Text → Text → Text
  pub parent : Text → Option Text
  pub exists : Text → Bool
  pub read_to_string : Text → Result Text Text

-- The first of the search paths that has the file.
unfoldable pub search_paths : FileSystem → Text → List Text → Option Text
search_paths fs sig_filename [] = none
search_paths fs sig_filename (path ∷ paths) =
    if fs.exists (fs.join path sig_filename)
    then some (fs.join path sig_filename)
    else search_paths fs sig_filename paths

unfoldable pub first_existing : FileSystem → Text → Option Text
first_existing fs path = if fs.exists path then some path else none

abbrev pub or_else : Option Text → Option Text → Option Text
or_else (some p) q = some p
or_else none q = q

unfoldable pub beside : FileSystem → Text → Text → Option Text
unfolding first_existing
beside fs sig_filename filename = elim (fs.parent filename) [
  | none ↦ none
  | some dir ↦ first_existing fs (fs.join dir sig_filename)
]

unfoldable pub find_signature : FileSystem → Text → List Text → Text → Option Text
unfolding search_paths beside first_existing
find_signature fs sig_filename import_paths filename =
    or_else (search_paths fs sig_filename import_paths)
      (or_else (beside fs sig_filename filename) (first_existing fs sig_filename))

-- `FsSignatureResolver::resolve`
unfoldable pub fs_resolve : FileSystem → Text → List Text → Text → Result Text Text
unfolding find_named built_in find_signature
fs_resolve fs module_name import_paths filename = elim (find_named module_name built_in) [
  | some content ↦ ok content
  | none ↦ elim (find_signature fs (module_name ++ codes ".llmi") import_paths filename) [
    | some path ↦ fs.read_to_string path
    | none ↦ err (codes "E017")
  ]
]
