-- ===== src/Lexer/Scan.antt =====
-- src/compiler/lexer/mod.rs: `Lexer` and its methods. `input` holds the characters from `pos` on.
-- Comments make `next_token` call itself: it takes fuel, a unit for each call, and one unit more
-- than there are characters is enough.
use llmlang.Prelude.{
  ℕ, zero, suc, ◌+◌, ◌^◌, Bool, ◌||◌, Text, codes, [], ◌∷◌, ◌++◌, none, some, ◌==◌, ltb, is_digit,
  decimal_from, parse_digits, print_hex, if◌then◌else◌, length, any,
}
use llmlang.Prelude.Int.{pos}
use llmlang.Error.{CompileError, Outcome, and_then}
use llmlang.Token.{Token}
use llmlang.Lexer.Chars.{
  is_whitespace, is_letter, is_alphanumeric, single_tokens, find_single, word_token,
}

pub record Lexer : Type 0 where
  pub input : Text
  pub line : ℕ
  pub filename : Text

-- The longest prefix of characters that pass a test, and the rest.
unfoldable pub span : (ℕ → Bool) → Text → Text × Text
span p [] = ([], [])
span p (c ∷ cs) = let (xs, ys) = span p cs in if p c then (c ∷ xs, ys) else ([], c ∷ cs)

unfoldable pub skip_from : Text → ℕ → Text × ℕ
unfolding is_whitespace
skip_from [] line = ([], line)
skip_from (c ∷ cs) line =
    let r = skip_from cs (if c == b'\n' then line + 1 else line) in
    if is_whitespace c then r else (c ∷ cs, line)

unfoldable pub skip_whitespace : Lexer → Lexer
unfolding skip_from
skip_whitespace l =
    let (rest, line) = skip_from l.input l.line in record l { input = rest; line = line }

-- `num_str.parse().unwrap_or(..)`, on digits
unfoldable pub parse_or : ℕ → Text → ℕ
unfolding parse_digits
parse_or d s = elim (parse_digits (2 ^ 64) s) [ none ↦ d | some n ↦ n ]

unfoldable pub apply_token : Text → Token
unfolding parse_or
apply_token [] = Token.apply 1
apply_token (c ∷ cs) = Token.apply (parse_or 1 (c ∷ cs))

unfoldable pub lex_arity_token : Lexer → Token × Lexer
unfolding span apply_token
lex_arity_token l =
    let (num_str, rest) = span (λ c. is_digit c) l.input in
    (apply_token num_str, record l { input = rest })

unfoldable pub trap_token : Text → Token
unfolding parse_or
trap_token [] = Token.trap
trap_token (c ∷ cs) = Token.de_bruijn (parse_or 0 (c ∷ cs))

unfoldable pub lex_trap_or_debruijn : Lexer → Token × Lexer
unfolding span trap_token
lex_trap_or_debruijn l =
    let (num_str, rest) = span (λ c. is_digit c) l.input in
    (trap_token num_str, record l { input = rest })

-- `parse::<i64>().unwrap()` and `parse::<f64>().unwrap()` of a numeral: too large an integer, and a
-- second point, panic.
unfoldable pub number_token : Text → Outcome Token
unfolding span decimal_from
number_token num_str =
    let (whole, tail) = span (λ c. is_digit c) num_str in
    elim tail [
      | [] ↦
          if ltb (decimal_from 0 whole) (2 ^ 63)
          then Outcome.ok (Token.integer (pos (decimal_from 0 whole)))
          else Outcome.panic
      | _ ∷ fraction ↦
          if any (λ c. c == b'.') fraction
          then Outcome.panic
          else Outcome.ok (Token.float (record { whole = whole; fraction = fraction }))
    ]

unfoldable pub lex_number : ℕ → Lexer → Outcome (Token × Lexer)
unfolding span number_token
lex_number first_ch l =
    let (num_str, rest) = span (λ c. is_digit c || c == b'.') l.input in
    and_then (number_token (first_ch ∷ num_str)) λ t. Outcome.ok (t, record l { input = rest })

unfoldable pub lex_identifier : (ℕ → Bool) → ℕ → Lexer → Token × Lexer
unfolding span is_alphanumeric word_token
lex_identifier wide first_ch l =
    let (id_str, rest) = span (λ c. is_alphanumeric wide c || c == b'_') l.input in
    (word_token (first_ch ∷ id_str), record l { input = rest })

unfoldable pub unescape : ℕ → ℕ
unescape c =
    if c == b'n' then b'\n' else if c == b't' then b'\t' else if c == b'r' then b'\r' else c

-- The text of a literal up to its closing quote, and what follows the quote.
unfoldable pub string_from : Text → Text × Text
unfolding unescape
string_from [] = ([], [])
string_from (c ∷ []) = if c == b'"' || c == b'\\' then ([], []) else (c ∷ [], [])
string_from (c ∷ d ∷ cs) =
    let (s, rest) = string_from (d ∷ cs) in
    let (s', rest') = string_from cs in
    if c == b'"'
    then ([], d ∷ cs)
    else if c == b'\\'
    then (unescape d ∷ s', rest')
    else (c ∷ s, rest)

unfoldable pub lex_string : Lexer → Token × Lexer
unfolding string_from
lex_string l = let (s, rest) = string_from l.input in (Token.string s, record l { input = rest })

-- The rest of a line that holds a comment is dropped with its newline.
unfoldable pub skip_comment : Text → ℕ → Text × ℕ
skip_comment [] line = ([], line)
skip_comment (c ∷ cs) line =
    let r = skip_comment cs line in if c == b'\n' then (cs, line + 1) else r

unfoldable pub behind_comment : Lexer → Lexer
unfolding skip_comment
behind_comment l =
    let (rest, line) = skip_comment l.input l.line in record l { input = rest; line = line }

-- Behind a `/`: a second one starts a comment, and `again` reads the token behind it.
unfoldable pub lex_slash : (Lexer → Outcome (Token × Lexer)) → Lexer → Outcome (Token × Lexer)
unfolding behind_comment
lex_slash again l = elim l.input [
  | [] ↦ Outcome.ok (Token.div, l)
  | c ∷ cs ↦ if c == b'/' then again (behind_comment l) else Outcome.ok (Token.div, l)
]

unfoldable pub invalid_char : ℕ → Lexer → CompileError
unfolding print_hex
invalid_char ch l = record {
  code = codes "E001: Invalid char '" ++ (ch ∷ codes "' (0x" ++ (print_hex ch ++ codes ")"));
  filename = l.filename;
  line = l.line;
}

-- The other tokens, by the character `ch` that they begin with; `l` stands behind it.
unfoldable pub lex_long :
    (ℕ → Bool) → (Lexer → Outcome (Token × Lexer)) → ℕ → Lexer → Outcome (Token × Lexer)
lex_long wide again ch l =
    if ch == b'@'
    then Outcome.ok (lex_arity_token l)
    else if ch == b'/'
    then lex_slash again l
    else if ch == b'^'
    then Outcome.ok (lex_trap_or_debruijn l)
    else if ch == b'"'
    then Outcome.ok (lex_string l)
    else if is_digit ch
    then lex_number ch l
    else if is_letter ch || ch == b'_'
    then Outcome.ok (lex_identifier wide ch l)
    else Outcome.err (invalid_char ch l)

unfoldable pub lex_char :
    (ℕ → Bool) → (Lexer → Outcome (Token × Lexer)) → ℕ → Lexer → Outcome (Token × Lexer)
lex_char wide again ch l = elim (find_single ch single_tokens) [
  | some t ↦ Outcome.ok (t, l)
  | none ↦ lex_long wide again ch l
]

unfoldable pub lex_at :
    (ℕ → Bool) → (Lexer → Outcome (Token × Lexer)) → Lexer → Outcome (Token × Lexer)
lex_at wide again l = elim l.input [
  | [] ↦ Outcome.ok (Token.eof, l)
  | ch ∷ rest ↦ lex_char wide again ch (record l { input = rest })
]

unfoldable pub next_within : (ℕ → Bool) → ℕ → Lexer → Outcome (Token × Lexer)
next_within wide zero l = Outcome.out_of_fuel
next_within wide (suc fuel) l = lex_at wide (next_within wide fuel) (skip_whitespace l)

unfoldable pub next_token : (ℕ → Bool) → Lexer → Outcome (Token × Lexer)
unfolding next_within lex_at skip_whitespace lex_char lex_long find_single single_tokens
    lex_arity_token lex_slash lex_trap_or_debruijn lex_string lex_number is_letter lex_identifier
    invalid_char
next_token wide l = next_within wide (suc (length l.input)) l

unfoldable pub new_lexer : Text → Lexer
new_lexer input = record { input = input; line = 1; filename = [] }
