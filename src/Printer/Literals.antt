-- ===== src/Printer/Literals.antt =====
-- What the printer writes for a string literal, the lexer reads back.
use llmlang.Prelude.{
  ℕ, ◌≡◌, refl, ap, sym, ◌∙◌, Bool, false, Text, codes, [], ◌∷◌, ◌++◌, append_assoc, ◌==◌, ==_iff,
  Bool-cases, ◌⊎◌, inl, inr,
}
use llmlang.Token.{Token, Float}
use llmlang.Ast.{Expr}
use llmlang.Error.{Outcome}
use llmlang.Lexer.{Lexer, string_from, unescape, lex_string, next_token}
use llmlang.Printer.Format.{escape_char, escape_string, print}

-- A character is written as it is and is no quote or backslash, or behind a backslash as one that
-- reads as it.
abbrev Written : ℕ → Type 0
Written c =
    ((escape_char c ≡ c ∷ []) × ((c == b'"') ≡ false) × ((c == b'\\') ≡ false))
    ⊎ ((d : ℕ) × (escape_char c ≡ b'\\' ∷ d ∷ []) × (unescape d ≡ c))

written : (c : ℕ) → Written c
unfolding unescape
written c = elim (Bool-cases (c == b'\\')) [
  | inl e ↦ inr (b'\\', rw e refl, sym ((==_iff c b'\\').0 e))
  | inr b ↦ elim (Bool-cases (c == b'"')) [
    | inl e ↦ inr (b'"', rw (b, e) refl, sym ((==_iff c b'"').0 e))
    | inr q ↦ elim (Bool-cases (c == b'\n')) [
      | inl e ↦ inr (b'n', rw (b, q, e) refl, sym ((==_iff c b'\n').0 e))
      | inr n ↦ elim (Bool-cases (c == b'\t')) [
        | inl e ↦ inr (b't', rw (b, q, n, e) refl, sym ((==_iff c b'\t').0 e))
        | inr t ↦ elim (Bool-cases (c == b'\r')) [
          | inl e ↦ inr (b'r', rw (b, q, n, t, e) refl, sym ((==_iff c b'\r').0 e))
          | inr r ↦ inl (rw (b, q, n, t, r) refl, q, b)
        ]
      ]
    ]
  ]
]

-- What reading on gives, with a character in front.
abbrev prepend : ℕ → Text × Text → Text × Text
prepend c (s, rest) = (c ∷ s, rest)

-- An escaped text and its closing quote are not empty.
more : (s rest : Text) → (d : ℕ) × (t : Text) × (escape_string s ++ (b'"' ∷ rest) ≡ d ∷ t)
unfolding escape_string
more [] rest = (b'"', rest, refl)
more (c ∷ s) rest = elim (written c) [
  | inl (e, _, _) ↦
      (c, escape_string s ++ (b'"' ∷ rest), ap (λ w. (w ++ escape_string s) ++ (b'"' ∷ rest)) e)
  | inr (d, e, _) ↦ (
    b'\\',
    d ∷ (escape_string s ++ (b'"' ∷ rest)),
    ap (λ w. (w ++ escape_string s) ++ (b'"' ∷ rest)) e,
  )
]

string_from-ordinary :
    (c : ℕ) (t : Text) {d : ℕ} {u : Text}
    → (c == b'"') ≡ false
    → (c == b'\\') ≡ false
    → t ≡ d ∷ u
    → string_from (c ∷ t) ≡ prepend c (string_from t)
unfolding string_from
string_from-ordinary c [] q b e = cc
string_from-ordinary c (d ∷ t) q b e = rw (q, b, string_from) refl

string_from-char :
    (c : ℕ) (t : Text) {d : ℕ} {u : Text}
    → t ≡ d ∷ u
    → string_from (escape_char c ++ t) ≡ prepend c (string_from t)
unfolding string_from
string_from-char c t e = elim (written c) [
  | inl (w, q, b) ↦ ap (λ v. string_from (v ++ t)) w ∙ string_from-ordinary c t q b e
  | inr (x, w, back) ↦ ap (λ v. string_from (v ++ t)) w ∙ ap (λ v. prepend v (string_from t)) back
]

string_from-escape : (s rest : Text) → string_from (escape_string s ++ (b'"' ∷ rest)) ≡ (s, rest)
unfolding string_from escape_string
string_from-escape [] [] = refl
string_from-escape [] (c ∷ rest) = refl
string_from-escape (c ∷ s) rest =
    let (d, t, e) = more s rest in
    ap string_from (append_assoc (escape_char c) (escape_string s) (b'"' ∷ rest))
    ∙ string_from-char c (escape_string s ++ (b'"' ∷ rest)) e
    ∙ ap (prepend c) (string_from-escape s rest)

-- The literal that the printer writes for a text is read as one token with this text, and the lexer
-- stands behind it.
pub next_token-print_string :
    (show_float : Float → Text) (wide : ℕ → Bool) (depth : ℕ) (s rest : Text) (l : Lexer)
    → next_token wide (record l { input = print show_float depth (Expr.string s) ++ rest })
      ≡ Outcome.ok (Token.string s, record l { input = rest })
unfolding next_token lex_string print
next_token-print_string show_float wide depth s rest l =
    let same = append_assoc (escape_string s) (codes "\"") rest in
    rw (same, string_from-escape s rest) refl
