-- ===== src/Lexer/Progress.antt =====
-- The lexer always answers, and each token but the last takes characters.
use llmlang.Lexer.Chars.{word_token}
use llmlang.Lexer.Chars.{keywords}
use llmlang.Prelude.{text_eq}
use llmlang.Prelude.{lookup}
use llmlang.Prelude.{subst}
use llmlang.Prelude.{◌∙◌}
use llmlang.Prelude.{sym}
use llmlang.Prelude.{Bool-cases}
use llmlang.Prelude.{some}
use llmlang.Lexer.Scan.{trap_token}
use llmlang.Lexer.Scan.{apply_token}
use llmlang.Prelude.{List}
use llmlang.Prelude.{
  ℕ, zero, suc, ◌+◌, ◌<◌, ◌≤◌, ◌≡◌, ◌⊎◌, refl, Bool, true, false, ◌||◌, Text, [], ◌∷◌, inl, inr, ap,
  if◌then◌else◌, ◌==◌, is_digit, length, arith, Option-cases,
}
use mathlib.Core.Option.{some-injective}
use llmlang.Error.{Outcome, and_then}
use llmlang.Token.{Token}
use llmlang.Lexer.Chars.{is_letter, is_alphanumeric, single_tokens, find_single}
use llmlang.Lexer.Scan.{
  Lexer, span, skip_from, skip_whitespace, lex_arity_token, lex_trap_or_debruijn, number_token,
  lex_number, lex_identifier, string_from, lex_string, skip_comment, behind_comment, lex_slash,
  lex_long, lex_char, lex_at, next_within, next_token,
}

abbrev pub is_eof : Token → Bool
is_eof Token.eof = true
is_eof _ = false

-- What was read is no longer than `n`, if a token was read; the fuel was enough.
abbrev Bounded : ℕ → Outcome (Token × Lexer) → Type 0
Bounded n (Outcome.ok (t, l)) = length l.input ≤ n
Bounded n Outcome.out_of_fuel = ⊥
Bounded n _ = Unit

-- A token but `eof` leaves less than there was; `eof` is found only at the end, and leaves nothing.
abbrev pub Progress : ℕ → Outcome (Token × Lexer) → Type 0
Progress n (Outcome.ok (t, l)) =
    ((is_eof t ≡ false) × (length l.input < n)) ⊎ ((t ≡ Token.eof) × (l.input ≡ []))
Progress n Outcome.out_of_fuel = ⊥
Progress n _ = Unit

length-span : (p : ℕ → Bool) (s : Text) → length (span p s).1 ≤ length s
unfolding span
length-span p [] = omega arith
length-span p (c ∷ cs) = ground (arith, length-span p cs)

length-skip_from : (s : Text) (line : ℕ) → length (skip_from s line).0 ≤ length s
unfolding skip_from
length-skip_from [] line = omega arith
length-skip_from (c ∷ cs) line =
    ground (arith, length-skip_from cs line, length-skip_from cs (line + 1))

length-skip_comment : (s : Text) (line : ℕ) → length (skip_comment s line).0 ≤ length s
unfolding skip_comment
length-skip_comment [] line = omega arith
length-skip_comment (c ∷ cs) line = ground (arith, length-skip_comment cs line)

length-string_from : (s : Text) → length (string_from s).1 ≤ length s
unfolding string_from
length-string_from [] = omega arith
length-string_from (c ∷ []) = ground arith
length-string_from (c ∷ d ∷ cs) = ground (arith, length-string_from (d ∷ cs), length-string_from cs)

Progress-weaken : {n k : ℕ} (r : Outcome (Token × Lexer)) → n ≤ k → Progress n r → Progress k r
Progress-weaken (Outcome.ok (t, l)) h (inl (e, p)) = inl (e, omega arith)
Progress-weaken (Outcome.ok (t, l)) h (inr p) = inr p
Progress-weaken (Outcome.err _) h p = tt
Progress-weaken Outcome.panic h p = tt
Progress-weaken Outcome.out_of_fuel h p = p

length-behind_comment : (l : Lexer) → length (behind_comment l).input ≤ length l.input
unfolding behind_comment
length-behind_comment l = length-skip_comment l.input l.line

-- A numeral that is read is a number.
abbrev IsNumber : Outcome Token → Type 0
IsNumber (Outcome.ok t) = is_eof t ≡ false
IsNumber Outcome.out_of_fuel = ⊥
IsNumber _ = Unit

number_token-IsNumber : (s : Text) → IsNumber (number_token s)
unfolding number_token
number_token-IsNumber s = ground arith

then-Progress :
    (r : Outcome Token) (l : Lexer) (n : ℕ)
    → IsNumber r
    → length l.input < n
    → Progress n (and_then r (λ t. Outcome.ok (t, l)))
then-Progress (Outcome.ok t) l n h b = inl (h, b)
then-Progress (Outcome.err _) l n h b = tt
then-Progress Outcome.panic l n h b = tt
then-Progress Outcome.out_of_fuel l n h b = absurd h

Progress-if :
    (n : ℕ) (b : Bool) (p q : Outcome (Token × Lexer))
    → Progress n p
    → Progress n q
    → Progress n (if b then p else q)
Progress-if n true p q hp hq = hp
Progress-if n false p q hp hq = hq

slash-Progress :
    (again : Lexer → Outcome (Token × Lexer)) (s : Text) (l : Lexer)
    → l.input ≡ s
    → Progress (length (behind_comment l).input) (again (behind_comment l))
    → Progress (suc (length l.input)) (lex_slash again l)
unfolding lex_slash
slash-Progress again [] l e h = rw (e, lex_slash) (inl (refl, omega (arith, ap length e)))
slash-Progress again (c ∷ cs) l e h =
    rw (e, lex_slash)
      (Progress-if _ (c == b'/') _ _
        (Progress-weaken (again (behind_comment l))
          (omega (arith, length-behind_comment l, ap length e)) h)
        (inl (refl, omega (arith, ap length e))))

-- A token whose text ends within what stands behind its first character.
read-Progress :
    (n : ℕ) (r : Token × Lexer)
    → is_eof r.0 ≡ false
    → length r.1.input ≤ n
    → Progress (suc n) (Outcome.ok r)
read-Progress n r e h = inl (e, omega arith)

apply_token-ne-eof : (s : Text) → is_eof (apply_token s) ≡ false
unfolding apply_token
apply_token-ne-eof [] = refl
apply_token-ne-eof (c ∷ cs) = refl

trap_token-ne-eof : (s : Text) → is_eof (trap_token s) ≡ false
unfolding trap_token
trap_token-ne-eof [] = refl
trap_token-ne-eof (c ∷ cs) = refl

-- No token of a table is the end.
abbrev no_eof : {K : Type 0} → List (K × Token) → Bool
no_eof [] = true
no_eof ((_, t) ∷ ts) = if is_eof t then false else no_eof ts

find_single-ne-eof :
    (c : ℕ) (ts : List (ℕ × Token)) (t : Token)
    → no_eof ts ≡ true
    → find_single c ts ≡ some t
    → is_eof t ≡ false
unfolding find_single
find_single-ne-eof c [] t h e = cc
find_single-ne-eof c ((d, u) ∷ ts) t h e = elim (Bool-cases (is_eof u)) [
  | inl bad ↦ let clash : false ≡ true = sym (rw bad refl) ∙ h in cc
  | inr good ↦ elim (Bool-cases (d == c)) [
    | inl same ↦
        subst (λ (v : Token). is_eof v ≡ false) (some-injective _ _ (sym (rw same refl) ∙ e)) good
    | inr other ↦
        find_single-ne-eof c ts t (sym (rw good refl) ∙ h) (sym (rw (other, find_single) refl) ∙ e)
  ]
]

lookup-ne-eof :
    (s : Text) (ts : List (Text × Token)) (t : Token)
    → no_eof ts ≡ true
    → lookup s ts ≡ some t
    → is_eof t ≡ false
unfolding lookup
lookup-ne-eof s [] t h e = cc
lookup-ne-eof s ((d, u) ∷ ts) t h e = elim (Bool-cases (is_eof u)) [
  | inl bad ↦ let clash : false ≡ true = sym (rw bad refl) ∙ h in cc
  | inr good ↦ elim (Bool-cases (text_eq d s)) [
    | inl same ↦
        subst (λ (v : Token). is_eof v ≡ false) (some-injective _ _ (sym (rw same refl) ∙ e)) good
    | inr other ↦ lookup-ne-eof s ts t (sym (rw good refl) ∙ h) (sym (rw (other, lookup) refl) ∙ e)
  ]
]

single_tokens-no_eof : no_eof single_tokens ≡ true
unfolding single_tokens
single_tokens-no_eof = refl

keywords-no_eof : no_eof keywords ≡ true
unfolding keywords
keywords-no_eof = refl

word_token-ne-eof : (s : Text) → is_eof (word_token s) ≡ false
unfolding word_token
word_token-ne-eof s = elim (Option-cases (lookup s keywords)) [
  | inl e ↦ rw (e, word_token) refl
  | inr (t, e) ↦ rw (e, word_token) (lookup-ne-eof s keywords t keywords-no_eof e)
]

arity-le : (l : Lexer) → length (lex_arity_token l).1.input ≤ length l.input
unfolding lex_arity_token
arity-le l = length-span (λ c. is_digit c) l.input

trap-le : (l : Lexer) → length (lex_trap_or_debruijn l).1.input ≤ length l.input
unfolding lex_trap_or_debruijn
trap-le l = length-span (λ c. is_digit c) l.input

string-le : (l : Lexer) → length (lex_string l).1.input ≤ length l.input
unfolding lex_string
string-le l = length-string_from l.input

identifier-le :
    (wide : ℕ → Bool) (ch : ℕ) (l : Lexer)
    → length (lex_identifier wide ch l).1.input ≤ length l.input
unfolding lex_identifier
identifier-le wide ch l = length-span (λ c. is_alphanumeric wide c || c == b'_') l.input

number-Progress : (ch : ℕ) (l : Lexer) → Progress (suc (length l.input)) (lex_number ch l)
unfolding lex_number
number-Progress ch l =
    let num_str : Text = ch ∷ (span (λ c. is_digit c || c == b'.') l.input).0 in
    then-Progress (number_token num_str) _ _ (number_token-IsNumber num_str)
      (omega (arith, length-span (λ c. is_digit c || c == b'.') l.input))

char-Progress :
    (wide : ℕ → Bool) (again : Lexer → Outcome (Token × Lexer)) (ch : ℕ) (l : Lexer)
    → Progress (length (behind_comment l).input) (again (behind_comment l))
    → Progress (suc (length l.input)) (lex_char wide again ch l)
unfolding lex_char lex_long lex_arity_token lex_trap_or_debruijn lex_string lex_identifier
char-Progress wide again ch l h = elim (Option-cases (find_single ch single_tokens)) [
  | inr (t, e) ↦
      rw (e, lex_char)
        (inl (find_single-ne-eof ch single_tokens t single_tokens-no_eof e, omega arith))
  | inl e ↦
      rw (e, lex_char)
        (Progress-if _ (ch == b'@') _ _
          (read-Progress _ (lex_arity_token l) (apply_token-ne-eof _) (arity-le l))
          (Progress-if _ (ch == b'/') _ _ (slash-Progress again l.input l refl h) (
            Progress-if _ (ch == b'^') _ _
              (read-Progress _ (lex_trap_or_debruijn l) (trap_token-ne-eof _) (trap-le l))
              (Progress-if _ (ch == b'"') _ _ (read-Progress _ (lex_string l) refl (string-le l)) (
                Progress-if _ (is_digit ch) _ _ (number-Progress ch l) (
                  Progress-if _ (is_letter ch || ch == b'_') _ _
                    (read-Progress _ (lex_identifier wide ch l) (word_token-ne-eof _)
                      (identifier-le wide ch l))
                    tt))))))
]

length-skip_whitespace : (l : Lexer) → length (skip_whitespace l).input ≤ length l.input
unfolding skip_whitespace
length-skip_whitespace l = length-skip_from l.input l.line

at-Progress :
    (wide : ℕ → Bool) (again : Lexer → Outcome (Token × Lexer)) (s : Text) (l : Lexer)
    → l.input ≡ s
    → ((k : Lexer) → length k.input < length l.input → Progress (length k.input) (again k))
    → Progress (length l.input) (lex_at wide again l)
unfolding lex_at
at-Progress wide again [] l e h = rw (e, lex_at) (inr (refl, e))
at-Progress wide again (ch ∷ rest) l e h =
    let l' : Lexer = record l { input = rest } in
    let short = h (behind_comment l') (omega (arith, length-behind_comment l', ap length e)) in
    rw (e, lex_at) (char-Progress wide again ch l' short)

next_within-Progress :
    (wide : ℕ → Bool) (fuel : ℕ) (l : Lexer)
    → length l.input < fuel
    → Progress (length l.input) (next_within wide fuel l)
unfolding next_within
next_within-Progress wide zero l h = elim h [ ]
next_within-Progress wide (suc fuel) l h =
    let k = skip_whitespace l in
    Progress-weaken (lex_at wide (next_within wide fuel) k) (length-skip_whitespace l) (
      at-Progress wide (next_within wide fuel) k.input k refl
        (λ j lt. next_within-Progress wide fuel j (omega (arith, length-skip_whitespace l))))

-- `next_token` never runs out of fuel. A token that is not the end of the input takes at least a
-- character, and the end is reported only where nothing is left.
pub next_token-Progress :
    (wide : ℕ → Bool) (l : Lexer) → Progress (length l.input) (next_token wide l)
unfolding next_token
next_token-Progress wide l = next_within-Progress wide (suc (length l.input)) l (omega arith)
