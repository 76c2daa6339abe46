-- ===== src/Prelude/Numerals.antt =====
-- Numbers as texts: the decimal numerals that Rust parses and prints, and hexadecimal ones.
use Prim.Native.Nat.{ℕ, zero, suc, ◌+◌, ◌-◌, ◌*◌, ◌/◌, ◌%◌, ◌^◌}
use mathlib.Core.Bool.{Bool, true, ◌&&◌}
use mathlib.Core.List.{[], ◌∷◌}
use mathlib.Core.Option.{Option, none, some}
use llmlang.Prelude.Tests.{ltb, ◌==◌, within, if◌then◌else◌}
use llmlang.Prelude.Texts.{Text}
use llmlang.Prelude.Int.{ℤ, pos, negsuc}

-- `char::is_digit(10)`
abbrev pub is_digit : ℕ → Bool
is_digit c = within b'0' b'9' c

-- The value of a text of digits, behind `n`.
unfoldable pub decimal_from : ℕ → Text → ℕ
decimal_from n [] = n
decimal_from n (c ∷ cs) = decimal_from (n * 10 + (c - b'0')) cs

unfoldable pub all_digits : Text → Bool
all_digits [] = true
all_digits (c ∷ cs) = is_digit c && all_digits cs

-- `parse` of a text of digits into an unsigned integer below `limit`.
unfoldable pub parse_digits : ℕ → Text → Option ℕ
unfolding decimal_from all_digits
parse_digits limit [] = none
parse_digits limit s =
    if all_digits s && ltb (decimal_from 0 s) limit then some (decimal_from 0 s) else none

-- `parse::<usize>`, which takes a sign.
unfoldable pub parse_usize : Text → Option ℕ
unfolding parse_digits
parse_usize [] = none
parse_usize (c ∷ cs) =
    if c == b'+' then parse_digits (2 ^ 64) cs else parse_digits (2 ^ 64) (c ∷ cs)

-- `parse::<i64>`
unfoldable pub parse_i64 : Text → Option ℤ
unfolding parse_digits
parse_i64 [] = none
parse_i64 (c ∷ cs) =
    if c == b'-'
    then elim (parse_digits (2 ^ 63 + 1) cs) [
      | none ↦ none
      | some n ↦ some (if n == 0 then pos 0 else negsuc (n - 1))
    ]
    else elim (parse_digits (2 ^ 63) (if c == b'+' then cs else c ∷ cs)) [
      | none ↦ none
      | some n ↦ some (pos n)
    ]

-- The digits of a number to a base, at most `fuel` of them, in front of `rest`. Twenty decimal
-- digits hold every 64-bit number, and eight hexadecimal ones every `u32`.
unfoldable pub digits_onto : ℕ → ℕ → (ℕ → ℕ) → ℕ → Text → Text
digits_onto zero base digit n rest = rest
digits_onto (suc fuel) base digit n rest =
    let more = digits_onto fuel base digit (n / base) (digit (n % base) ∷ rest) in
    if ltb n base then digit n ∷ rest else more

unfoldable pub print_decimal : ℕ → Text
unfolding digits_onto
print_decimal n = digits_onto 20 10 (λ d. b'0' + d) n []

unfoldable pub print_hex : ℕ → Text
unfolding digits_onto
print_hex n = digits_onto 8 16 (λ d. if ltb d 10 then b'0' + d else b'a' + (d - 10)) n []
