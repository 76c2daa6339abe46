-- ===== src/Printer/Numbers.antt =====
-- What the printer writes for a number, the lexer reads back.
use llmlang.Prelude.{◌+◌}
use llmlang.Prelude.Int.{negsuc}
use llmlang.Prelude.{
  ℕ, ◌^◌, ◌<◌, ◌≤◌, ◌≡◌, ◌≢◌, refl, ap, sym, ◌∙◌, subst, Bool, true, false, ◌||◌, Text, [], ◌∷◌,
  ◌++◌, append-nil, ◌==◌, ltb, ==_iff, arith, Bool-cases, inl, inr, is_digit, decimal_from,
  all_digits, print_decimal,
}
use llmlang.Prelude.Int.{pos}
use llmlang.Token.{Token, Float}
use llmlang.Ast.{Expr}
use llmlang.Error.{Outcome, and_then}
use llmlang.Lexer.{Lexer, span, number_token, lex_number, next_token}
use llmlang.Printer.Format.{print, print_integer}
use llmlang.Printer.Digits.{print_decimal-facts}

-- The text does not go on with a character that passes the test.
abbrev pub Stops : (ℕ → Bool) → Text → Type 0
Stops p [] = Unit
Stops p (c ∷ _) = p c ≡ false

digits-parts :
    (c : ℕ) (ds : Text) → all_digits (c ∷ ds) ≡ true → (is_digit c ≡ true) × (all_digits ds ≡ true)
unfolding all_digits
digits-parts c ds h = ground arith

span-digits :
    (p : ℕ → Bool) (ds rest : Text)
    → ((c : ℕ) → is_digit c ≡ true → p c ≡ true)
    → all_digits ds ≡ true
    → Stops p rest
    → span p (ds ++ rest) ≡ (ds, rest)
unfolding span all_digits
span-digits p [] [] h d stop = refl
span-digits p [] (c ∷ rest) h d stop = rw (stop, span) refl
span-digits p (c ∷ ds) rest h d stop =
    let (here, later) = digits-parts c ds d in
    rw (h c here, span-digits p ds rest h later stop, span) refl

lt-ltb : (a b : ℕ) → a < b → ltb a b ≡ true
lt-ltb a b h = ground arith

number_token-digits :
    (ds : Text)
    → all_digits ds ≡ true
    → decimal_from 0 ds < 2 ^ 63
    → number_token ds ≡ Outcome.ok (Token.integer (pos (decimal_from 0 ds)))
unfolding number_token
number_token-digits ds d h =
    let whole =
      ap (span (λ c. is_digit c)) (sym (append-nil ds))
      ∙ span-digits (λ c. is_digit c) ds [] (λ c e. e) d tt in
    rw (whole, number_token) (rw whole (rw (lt-ltb (decimal_from 0 ds) (2 ^ 63) h) refl))

digit-range : (c : ℕ) → is_digit c ≡ true → (48 ≤ c) × (c ≤ 57)
digit-range c h = ground arith

differs : (a b : ℕ) → (a == b) ≡ false → a ≢ b
differs a b h = ground arith

-- What holds of the ten digits.
digit-cases {ℓ} :
    (P : ℕ → Type ℓ)
    → P b'0'
    → P b'1'
    → P b'2'
    → P b'3'
    → P b'4'
    → P b'5'
    → P b'6'
    → P b'7'
    → P b'8'
    → P b'9'
    → (c : ℕ) → is_digit c ≡ true
    → P c
digit-cases P p₀ p₁ p₂ p₃ p₄ p₅ p₆ p₇ p₈ p₉ c h = elim (Bool-cases (c == b'0')) [
  | inl e ↦ subst P (sym ((==_iff c b'0').0 e)) p₀
  | inr n₀ ↦ elim (Bool-cases (c == b'1')) [
    | inl e ↦ subst P (sym ((==_iff c b'1').0 e)) p₁
    | inr n₁ ↦ elim (Bool-cases (c == b'2')) [
      | inl e ↦ subst P (sym ((==_iff c b'2').0 e)) p₂
      | inr n₂ ↦ elim (Bool-cases (c == b'3')) [
        | inl e ↦ subst P (sym ((==_iff c b'3').0 e)) p₃
        | inr n₃ ↦ elim (Bool-cases (c == b'4')) [
          | inl e ↦ subst P (sym ((==_iff c b'4').0 e)) p₄
          | inr n₄ ↦ elim (Bool-cases (c == b'5')) [
            | inl e ↦ subst P (sym ((==_iff c b'5').0 e)) p₅
            | inr n₅ ↦ elim (Bool-cases (c == b'6')) [
              | inl e ↦ subst P (sym ((==_iff c b'6').0 e)) p₆
              | inr n₆ ↦ elim (Bool-cases (c == b'7')) [
                | inl e ↦ subst P (sym ((==_iff c b'7').0 e)) p₇
                | inr n₇ ↦ elim (Bool-cases (c == b'8')) [
                  | inl e ↦ subst P (sym ((==_iff c b'8').0 e)) p₈
                  | inr n₈ ↦
                      subst P
                        (omega (
                          arith,
                          digit-range c h,
                          differs c b'0' n₀,
                          differs c b'1' n₁,
                          differs c b'2' n₂,
                          differs c b'3' n₃,
                          differs c b'4' n₄,
                          differs c b'5' n₅,
                          differs c b'6' n₆,
                          differs c b'7' n₇,
                          differs c b'8' n₈,
                        ))
                        p₉
                ]
              ]
            ]
          ]
        ]
      ]
    ]
  ]
]

next_token-digit :
    (wide : ℕ → Bool) (c : ℕ) (cs : Text) (l : Lexer)
    → is_digit c ≡ true
    → next_token wide (record l { input = c ∷ cs }) ≡ lex_number c (record l { input = cs })
unfolding next_token
next_token-digit wide c cs l h =
    digit-cases
      (λ c. next_token wide (record l { input = c ∷ cs }) ≡ lex_number c (record l { input = cs }))
      refl refl refl refl refl refl refl refl refl refl c h

digits-token :
    (wide : ℕ → Bool) (d : ℕ) (u rest : Text) (l : Lexer)
    → all_digits (d ∷ u) ≡ true
    → decimal_from 0 (d ∷ u) < 2 ^ 63
    → Stops (λ c. is_digit c || c == b'.') rest
    → next_token wide (record l { input = (d ∷ u) ++ rest })
      ≡ Outcome.ok (Token.integer (pos (decimal_from 0 (d ∷ u))), record l { input = rest })
unfolding lex_number
digits-token wide d u rest l good h stop =
    let (first, later) = digits-parts d u good in
    let cut = span-digits (λ c. is_digit c || c == b'.') u rest (λ c e. ground arith) later stop in
    let token = number_token-digits (d ∷ u) good h in
    next_token-digit wide d (u ++ rest) l first
    ∙ ap
        (λ (s : Text × Text).
          and_then (number_token (d ∷ s.0)) λ t. Outcome.ok (t, record l { input = s.1 }))
        cut
    ∙ ap (λ r. and_then r λ t. Outcome.ok (t, record l { input = rest })) token

decimal-token :
    (wide : ℕ → Bool) (n : ℕ) (t rest : Text) (l : Lexer)
    → n < 2 ^ 63
    → Stops (λ c. is_digit c || c == b'.') rest
    → (d : ℕ) × (u : Text) × (t ≡ d ∷ u) × (all_digits t ≡ true) × (decimal_from 0 t ≡ n)
    → next_token wide (record l { input = t ++ rest })
      ≡ Outcome.ok (Token.integer (pos n), record l { input = rest })
decimal-token wide n t rest l h stop (d, u, start, good, value) =
    let here = ap (decimal_from 0) (sym start) ∙ value in
    ap (λ s. next_token wide (record l { input = s ++ rest })) start
    ∙ digits-token wide d u rest l (subst (λ s. all_digits s ≡ true) start good)
        (omega (arith, here)) stop
    ∙ ap (λ k. Outcome.ok (Token.integer (pos k), record l { input = rest })) here

print-integer :
    (show_float : Float → Text) (depth n : ℕ)
    → print show_float depth (Expr.integer (pos n)) ≡ print_decimal n
unfolding print print_integer print_decimal
print-integer show_float depth n = refl

-- The sign of a negative number is read as a subtraction, and its digits stand behind it.
minus-token :
    (show_float : Float → Text) (wide : ℕ → Bool) (depth n : ℕ) (rest : Text) (l : Lexer)
    → next_token wide
        (record l { input = print show_float depth (Expr.integer (negsuc n)) ++ rest })
      ≡ Outcome.ok (
        Token.sub,
        record l { input = print show_float depth (Expr.integer (pos (n + 1))) ++ rest },
      )
unfolding next_token print print_integer print_decimal
minus-token show_float wide depth n rest l = refl

-- The numeral that the printer writes for a number from 0 on and below 2^63 is read as one token with
-- this number, and the lexer stands behind it, if no digit and no point follows it. What it writes for
-- the number -(n + 1) is not read as one token, but as a subtraction and then as the text that it writes
-- for n + 1.
pub next_token-print_integer :
    (show_float : Float → Text) (wide : ℕ → Bool) (depth n : ℕ) (rest : Text) (l : Lexer)
    → n < 2 ^ 63
    → Stops (λ c. is_digit c || c == b'.') rest
    → (next_token wide (record l { input = print show_float depth (Expr.integer (pos n)) ++ rest })
        ≡ Outcome.ok (Token.integer (pos n), record l { input = rest }))
      × (next_token wide
            (record l { input = print show_float depth (Expr.integer (negsuc n)) ++ rest })
          ≡ Outcome.ok (
            Token.sub,
            record l { input = print show_float depth (Expr.integer (pos (n + 1))) ++ rest },
          ))
next_token-print_integer show_float wide depth n rest l h stop = (
  ap (λ s. next_token wide (record l { input = s ++ rest })) (print-integer show_float depth n)
      ∙ decimal-token wide n (print_decimal n) rest l h stop (print_decimal-facts n (omega arith)),
  minus-token show_float wide depth n rest l,
)
