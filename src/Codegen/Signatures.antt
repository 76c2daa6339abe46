-- ===== src/Codegen/Signatures.antt =====
-- src/compiler/codegen/symbol.rs `emit_signature_file` and src/compiler/parser/mod.rs `load_signature`: the
-- parser reads what the code generator writes.
use llmlang.Prelude.{
  ℕ, ◌^◌, ◌<◌, ◌≡◌, refl, sym, ap, subst, ◌∙◌, true, false, Text, codes, List, [], ◌∷◌, ◌++◌,
  append_assoc, append-nil, some, ◌==◌, ltb, arith, All, join, all_digits, decimal_from,
  parse_digits, parse_usize, print_decimal,
}
use llmlang.Lexer.{is_whitespace}
use llmlang.Printer.Digits.{print_decimal-facts}
use llmlang.Parser.Signature.{Signature}
use llmlang.Parser.{
  lines, words_from, words, add_func, add_shape, add_line, add_lines, read_signature,
}
use llmlang.Codegen.Names.{
  shape_line, func_line, shape_lines, func_lines, exported_entries, without_internal, arities,
  SourceFile, Symbols, prefix_of, emit_signature_file, blank,
}

-- No character is whitespace.
abbrev pub IsSolid : Text → Type 0
IsSolid [] = Unit
IsSolid (c ∷ cs) = (is_whitespace c ≡ false) × IsSolid cs

-- A name as the lexer reads it: not empty, and with no whitespace in it.
abbrev pub IsWord : Text → Type 0
IsWord [] = ⊥
IsWord (c ∷ cs) = IsSolid (c ∷ cs)

-- No character ends a line.
abbrev IsLine : Text → Type 0
IsLine [] = Unit
IsLine (c ∷ cs) = ((c == b'\n') ≡ false) × ((c == b'\r') ≡ false) × IsLine cs

IsLine-append : (s t : Text) → IsLine s → IsLine t → IsLine (s ++ t)
IsLine-append [] t h k = k
IsLine-append (c ∷ s) t h k = (h.0, h.1, IsLine-append s t h.2 k)

solid-IsLine : (s : Text) → IsSolid s → IsLine s
unfolding is_whitespace
solid-IsLine [] h = tt
solid-IsLine (c ∷ s) h = (ground arith, ground arith, solid-IsLine s h.1)

lines-line : (l rest : Text) → IsLine l → lines (l ++ (b'\n' ∷ rest)) ≡ l ∷ lines rest
unfolding lines
lines-line [] rest h = refl
lines-line (c ∷ l) rest h = rw (h.0, h.1, lines-line l rest h.2, lines) refl

word-inside :
    (w rest : Text) → IsSolid w → words_from true (w ++ (b' ' ∷ rest)) ≡ w ∷ words_from false rest
unfolding words_from is_whitespace
word-inside [] rest h = refl
word-inside (c ∷ w) rest h = rw (h.0, word-inside w rest h.1, words_from) refl

word-first :
    (w rest : Text) → IsWord w → words_from false (w ++ (b' ' ∷ rest)) ≡ w ∷ words_from false rest
unfolding words_from
word-first [] rest h = absurd h
word-first (c ∷ w) rest h = rw (h.0, word-inside w rest h.1, words_from) refl

word-end : (w : Text) → IsSolid w → words_from true w ≡ w ∷ []
unfolding words_from
word-end [] h = refl
word-end (c ∷ w) h = rw (h.0, word-end w h.1, words_from) refl

word-last : (w : Text) → IsWord w → words_from false w ≡ w ∷ []
unfolding words_from
word-last [] h = absurd h
word-last (c ∷ w) h = rw (h.0, word-end w h.1, words_from) refl

words-join : (ws : List Text) → All IsWord ws → words_from false (join blank ws) ≡ ws
unfolding join words_from
words-join [] h = refl
words-join (w ∷ []) h = word-last w h.0
words-join (w ∷ v ∷ ws) h =
    word-first w (join blank (v ∷ ws)) h.0 ∙ ap (λ rest. w ∷ rest) (words-join (v ∷ ws) h.1)

word-IsSolid : (w : Text) → IsWord w → IsSolid w
word-IsSolid [] h = absurd h
word-IsSolid (c ∷ w) h = h

join-IsLine : (ws : List Text) → All IsWord ws → IsLine (join blank ws)
unfolding join
join-IsLine [] h = tt
join-IsLine (w ∷ []) h = solid-IsLine w (word-IsSolid w h.0)
join-IsLine (w ∷ v ∷ ws) h =
    IsLine-append w (b' ' ∷ join blank (v ∷ ws)) (solid-IsLine w (word-IsSolid w h.0))
      (refl, refl, join-IsLine (v ∷ ws) h.1)

digits-IsSolid : (ds : Text) → all_digits ds ≡ true → IsSolid ds
unfolding all_digits is_whitespace
digits-IsSolid [] h = tt
digits-IsSolid (c ∷ ds) h = (ground arith, digits-IsSolid ds (ground arith))

arity-IsWord : (n : ℕ) → n < 2 ^ 64 → IsWord (print_decimal n)
arity-IsWord n h =
    let (d, u, start, digits, value) = print_decimal-facts n h in
    subst IsWord (sym start) (digits-IsSolid (d ∷ u) (ap all_digits (sym start) ∙ digits))

plus-not-digit : (c : ℕ) (cs : Text) → all_digits (c ∷ cs) ≡ true → (c == b'+') ≡ false
unfolding all_digits
plus-not-digit c cs h = ground arith

parse_usize-print_decimal : (n : ℕ) → n < 2 ^ 64 → parse_usize (print_decimal n) ≡ some n
unfolding parse_usize parse_digits
parse_usize-print_decimal n h =
    let (d, u, start, digits, value) = print_decimal-facts n h in
    go (print_decimal n) d u start digits value
  where
    go :
        (t : Text) (d : ℕ) (u : Text)
        → t ≡ d ∷ u
        → all_digits t ≡ true
        → decimal_from 0 t ≡ n
        → parse_usize t ≡ some n
    go [] d u start digits value = absurd (cc)
    go (c ∷ cs) d u start digits value =
        let plus : (c == b'+') ≡ false = plus-not-digit c cs digits in
        let small : ltb n (2 ^ 64) ≡ true = ground arith in
        rw (plus, digits, value, small, parse_usize, parse_digits) refl

shape_chars : Text → List Text → Text
shape_chars name fields = b'#' ∷ b' ' ∷ (name ++ (b' ' ∷ join blank fields))

func_chars : Text → ℕ → Text
func_chars name arity = b':' ∷ b' ' ∷ (name ++ (b' ' ∷ print_decimal arity))

shape_line-text :
    (name : Text) (fields : List Text) (rest : Text)
    → shape_line name fields ++ rest ≡ shape_chars name fields ++ (b'\n' ∷ rest)
unfolding shape_line shape_chars
shape_line-text name fields rest = simp append_assoc

func_line-text :
    (name : Text) (arity : ℕ) (rest : Text)
    → func_line name arity ++ rest ≡ func_chars name arity ++ (b'\n' ∷ rest)
unfolding func_line func_chars
func_line-text name arity rest = simp append_assoc

shape-IsLine :
    (name : Text) (fields : List Text)
    → IsWord name
    → All IsWord fields
    → IsLine (shape_chars name fields)
unfolding shape_chars
shape-IsLine name fields h k = (
  refl,
  refl,
  (
    refl,
    refl,
    IsLine-append name (b' ' ∷ join blank fields) (solid-IsLine name (word-IsSolid name h))
        (refl, refl, join-IsLine fields k),
  ),
)

func-IsLine :
    (name : Text) (arity : ℕ) → IsWord name → arity < 2 ^ 64 → IsLine (func_chars name arity)
unfolding func_chars
func-IsLine name arity h k =
    let digits = word-IsSolid (print_decimal arity) (arity-IsWord arity k) in
    (
      refl,
      refl,
      (
        refl,
        refl,
        IsLine-append name (b' ' ∷ print_decimal arity) (solid-IsLine name (word-IsSolid name h))
            (refl, refl, solid-IsLine (print_decimal arity) digits),
      ),
    )

shape-words :
    (name : Text) (fields : List Text)
    → IsWord name
    → All IsWord fields
    → words (shape_chars name fields) ≡ codes "#" ∷ name ∷ fields
unfolding shape_chars words
shape-words name fields h k =
    word-first (codes "#") (name ++ (b' ' ∷ join blank fields)) (refl, tt)
    ∙ ap (λ ws. codes "#" ∷ ws)
        (word-first name (join blank fields) h ∙ ap (λ ws. name ∷ ws) (words-join fields k))

func-words :
    (name : Text) (arity : ℕ)
    → IsWord name
    → arity < 2 ^ 64
    → words (b' ' ∷ (name ++ (b' ' ∷ print_decimal arity))) ≡ name ∷ print_decimal arity ∷ []
unfolding words
func-words name arity h k =
    word-first name (print_decimal arity) h
    ∙ ap (λ ws. name ∷ ws) (word-last (print_decimal arity) (arity-IsWord arity k))

add_line-shape :
    (name : Text) (fields : List Text) (s : Signature)
    → IsWord name
    → All IsWord fields
    → add_line (shape_chars name fields) s ≡ record s { shapes = (name, fields) ∷ s.shapes }
unfolding add_line shape_chars add_shape
add_line-shape name fields s h k = ap (λ ws. add_shape ws s) (shape-words name fields h k)

add_line-func :
    (name : Text) (arity : ℕ) (s : Signature)
    → IsWord name
    → arity < 2 ^ 64
    → add_line (func_chars name arity) s ≡ record s { funcs = (name, arity) ∷ s.funcs }
unfolding add_line func_chars add_func
add_line-func name arity s h k =
    ap (λ ws. add_func ws s) (func-words name arity h k)
    ∙ rw (parse_usize-print_decimal arity k, add_func) refl

-- The names can be read back: what is written of a shape and of a function.
abbrev pub AreShapes : List (Text × List Text) → Type 0
AreShapes [] = Unit
AreShapes ((name, fields) ∷ rest) = IsWord name × All IsWord fields × AreShapes rest

abbrev pub AreFuncs : List (Text × ℕ) → Type 0
AreFuncs [] = Unit
AreFuncs ((name, arity) ∷ rest) = IsWord name × (arity < 2 ^ 64) × AreFuncs rest

read-shapes :
    (xs : List (Text × List Text)) (rest : Text)
    → AreShapes xs
    → read_signature (shape_lines xs ++ rest)
      ≡ (let r = read_signature rest in record r { shapes = xs ++ r.shapes })
unfolding shape_lines read_signature add_lines
read-shapes [] rest h = refl
read-shapes ((name, fields) ∷ xs) rest h =
    let text =
      append_assoc (shape_line name fields) (shape_lines xs) rest
      ∙ shape_line-text name fields (shape_lines xs ++ rest) in
    ap (λ t. add_lines (lines t)) text
    ∙ ap add_lines (
        lines-line (shape_chars name fields) (shape_lines xs ++ rest)
          (shape-IsLine name fields h.0 h.1))
    ∙ add_line-shape name fields (add_lines (lines (shape_lines xs ++ rest))) h.0 h.1
    ∙ ap {A = Signature} {B = Signature} (λ r. record r { shapes = (name, fields) ∷ r.shapes })
        (read-shapes xs rest h.2)

read-funcs :
    (xs : List (Text × ℕ)) (rest : Text)
    → AreFuncs xs
    → read_signature (func_lines xs ++ rest)
      ≡ (let r = read_signature rest in record r { funcs = xs ++ r.funcs })
unfolding func_lines read_signature add_lines
read-funcs [] rest h = refl
read-funcs ((name, arity) ∷ xs) rest h =
    let text =
      append_assoc (func_line name arity) (func_lines xs) rest
      ∙ func_line-text name arity (func_lines xs ++ rest) in
    ap (λ t. add_lines (lines t)) text
    ∙ ap add_lines (
        lines-line (func_chars name arity) (func_lines xs ++ rest) (func-IsLine name arity h.0 h.1))
    ∙ add_line-func name arity (add_lines (lines (func_lines xs ++ rest))) h.0 h.1
    ∙ ap {A = Signature} {B = Signature} (λ r. record r { funcs = (name, arity) ∷ r.funcs })
        (read-funcs xs rest h.2)

abbrev with_shapes : List (Text × List Text) → Signature → Signature
with_shapes xs r = record r { shapes = xs ++ r.shapes }

abbrev with_funcs : List (Text × ℕ) → Signature → Signature
with_funcs xs r = record r { funcs = xs ++ r.funcs }

read-all :
    (shapes : List (Text × List Text)) (funcs templates : List (Text × ℕ))
    → AreShapes shapes
    → AreFuncs funcs
    → AreFuncs templates
    → read_signature (shape_lines shapes ++ (func_lines funcs ++ func_lines templates))
      ≡ record { funcs = funcs ++ templates; shapes = shapes }
unfolding read_signature lines add_lines
read-all shapes funcs templates hs hf ht =
    let last =
      ap read_signature (sym (append-nil (func_lines templates))) ∙ read-funcs templates [] ht in
    read-shapes shapes (func_lines funcs ++ func_lines templates) hs
    ∙ ap (with_shapes shapes)
        (read-funcs funcs (func_lines templates) hf ∙ ap (with_funcs funcs) last)
    ∙ ends
  where
    ends :
        with_shapes shapes
          (with_funcs funcs (with_funcs templates (record { funcs = []; shapes = [] })))
        ≡ record { funcs = funcs ++ templates; shapes = shapes }
    ends = simp (append-nil)

-- The entries that are written are read, in their order.
pub read_signature-entries :
    (file : SourceFile) (sym : Symbols)
    → AreShapes (exported_entries sym.exports (prefix_of file) sym.shapes)
    → AreFuncs (exported_entries sym.exports (prefix_of file) (without_internal sym.functions))
    → AreFuncs (exported_entries sym.exports (prefix_of file) (arities sym.templates))
    → read_signature (emit_signature_file file sym) ≡ record {
      funcs =
          exported_entries sym.exports (prefix_of file) (without_internal sym.functions)
          ++ exported_entries sym.exports (prefix_of file) (arities sym.templates);
      shapes = exported_entries sym.exports (prefix_of file) sym.shapes;
    }
unfolding emit_signature_file
read_signature-entries file sym shapes funcs templates =
    read-all (exported_entries sym.exports (prefix_of file) sym.shapes)
      (exported_entries sym.exports (prefix_of file) (without_internal sym.functions))
      (exported_entries sym.exports (prefix_of file) (arities sym.templates)) shapes funcs templates
