-- ===== src/Printer/Digits.antt =====
-- The digits of a decimal numeral, and their value.
use llmlang.Prelude.{
  ℕ, zero, suc, ◌+◌, ◌*◌, ◌/◌, ◌%◌, ◌^◌, ◌<◌, ◌≤◌, ◌≡◌, refl, ap, ◌∙◌, true, false, Text, [], ◌∷◌,
  ltb, arith, Bool-cases, inl, inr, decimal_from, all_digits, digits_onto, print_decimal,
}

abbrev digit : ℕ → ℕ
digit d = b'0' + d

-- 10 ^ f
abbrev cap : ℕ → ℕ
cap zero = 1
cap (suc f) = 10 * cap f

ltb_ge : (a b : ℕ) → ltb a b ≡ false → b ≤ a
ltb_ge a b h = ground arith

decimal_from-digits :
    (f n : ℕ) (rest : Text)
    → n < cap f
    → decimal_from 0 (digits_onto f 10 digit n rest) ≡ decimal_from n rest
unfolding decimal_from digits_onto
decimal_from-digits zero n rest h = ap (λ k. decimal_from k rest) (omega arith)
decimal_from-digits (suc f) n rest h = elim (Bool-cases (ltb n 10)) [
  | inl e ↦ rw (e, digits_onto) (ap (λ k. decimal_from k rest) (omega arith))
  | inr e ↦
      rw (e, digits_onto)
        (decimal_from-digits f (n / 10) (digit (n % 10) ∷ rest) (omega (arith, ltb_ge n 10 e))
          ∙ ap (λ k. decimal_from k rest) (omega arith))
]

digits-all :
    (f n : ℕ) (rest : Text)
    → all_digits rest ≡ true
    → all_digits (digits_onto f 10 digit n rest) ≡ true
unfolding all_digits digits_onto
digits-all zero n rest h = h
digits-all (suc f) n rest h = elim (Bool-cases (ltb n 10)) [
  | inl e ↦ rw (e, digits_onto) (ground arith)
  | inr e ↦ rw (e, digits_onto) (digits-all f (n / 10) (digit (n % 10) ∷ rest) (ground arith))
]

-- Digits are written in front of what is there.
digits-cons :
    (f n c : ℕ) (t : Text) → (d : ℕ) × (u : Text) × (digits_onto f 10 digit n (c ∷ t) ≡ d ∷ u)
unfolding digits_onto
digits-cons zero n c t = (c, t, refl)
digits-cons (suc f) n c t = elim (Bool-cases (ltb n 10)) [
  | inl e ↦ rw (e, digits_onto) (digit n, c ∷ t, refl)
  | inr e ↦ rw (e, digits_onto) (digits-cons f (n / 10) (digit (n % 10)) (c ∷ t))
]

digits-facts :
    (f n : ℕ)
    → n < cap (suc f)
    → (let t = digits_onto (suc f) 10 digit n [] in
        (d : ℕ) × (u : Text) × (t ≡ d ∷ u) × (all_digits t ≡ true) × (decimal_from 0 t ≡ n))
unfolding digits_onto all_digits decimal_from
digits-facts f n h =
    let value = decimal_from-digits (suc f) n [] h in
    let good = digits-all (suc f) n [] refl in
    elim (Bool-cases (ltb n 10)) [
      | inl e ↦ (digit n, [], rw (e, digits_onto) refl, good, value)
      | inr e ↦
          let (d, u, start) = digits-cons f (n / 10) (digit (n % 10)) [] in
          (d, u, rw (e, digits_onto) start, good, value)
    ]

-- The numeral of a number is made of digits, and has its value.
pub print_decimal-facts :
    (n : ℕ)
    → n < 2 ^ 64
    → (d : ℕ) × (u : Text) × (print_decimal n ≡ d ∷ u)
      × (all_digits (print_decimal n) ≡ true)
      × (decimal_from 0 (print_decimal n) ≡ n)
unfolding print_decimal
print_decimal-facts n h = digits-facts 19 n (omega arith)
