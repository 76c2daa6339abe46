-- ===== src/Testing/Protocol.antt =====
-- src/testing/mod.rs: what the dispatcher of a test binary prints is what `run_single_test` reads.
use llmlang.Prelude.{Bool}
use llmlang.Prelude.{if◌then◌else◌}
use llmlang.Testing.Process.{TestResult}
use llmlang.Prelude.{
  ℕ, ◌^◌, ◌<◌, ◌≡◌, refl, sym, ap, ◌∙◌, true, false, Text, codes, text_eq, text_eq_iff, ==_iff, [],
  ◌∷◌, ◌++◌, none, some, ◌==◌, ltb, arith, Bool-cases, inl, inr, is_digit, decimal_from, all_digits,
  parse_digits, print_decimal, parse_i64, starts_with, strip_prefix, behind_last,
  behind_last-append, before_first, split_once, drop_while, drop_end,
}
use llmlang.Prelude.Int.{pos}
use llmlang.Error.{Result, ok}
use llmlang.Lexer.{is_whitespace}
use llmlang.Printer.Digits.{print_decimal-facts}
use llmlang.Testing.Discovery.{DiscoveredTest}
use llmlang.Testing.Process.{
  result_marker, result_end_marker, Command, Output, trim, message_of, timed_result, timed_parts,
  payload_parts, parse_payload, parse_result, reported, result_of, test_command, run_single_test,
}

digit-not-space : (c : ℕ) → is_digit c ≡ true → is_whitespace c ≡ false
unfolding is_whitespace
digit-not-space c h = ground arith

digits-head : (c : ℕ) (ds : Text) → all_digits (c ∷ ds) ≡ true → is_digit c ≡ true
unfolding all_digits
digits-head c ds h = ground arith

digits-tail : (c : ℕ) (ds : Text) → all_digits (c ∷ ds) ≡ true → all_digits ds ≡ true
unfolding all_digits
digits-tail c ds h = ground arith

drop_end-digits : (ds : Text) → all_digits ds ≡ true → drop_end is_whitespace ds ≡ ds
unfolding drop_end
drop_end-digits [] h = refl
drop_end-digits (c ∷ []) h = rw (digit-not-space c (digits-head c [] h), drop_end) refl
drop_end-digits (c ∷ d ∷ ds) h =
    rw (drop_end-digits (d ∷ ds) (digits-tail c (d ∷ ds) h), drop_end) refl

trim-digits : (ds : Text) → all_digits ds ≡ true → trim ds ≡ ds
unfolding trim drop_while
trim-digits [] h = drop_end-digits [] h
trim-digits (c ∷ ds) h =
    rw (digit-not-space c (digits-head c ds h), drop_while) (drop_end-digits (c ∷ ds) h)

digit-not-colon : (c : ℕ) → is_digit c ≡ true → (c == b':') ≡ false
digit-not-colon c h = ground arith

split_once-digits :
    (ds rest : Text)
    → all_digits ds ≡ true
    → split_once b':' (ds ++ (b':' ∷ rest)) ≡ (ds, some rest)
unfolding split_once
split_once-digits [] rest h = refl
split_once-digits (c ∷ ds) rest h =
    rw
      (
        digit-not-colon c (digits-head c ds h),
        split_once-digits ds rest (digits-tail c ds h),
        split_once,
      )
      refl

-- No digit and no colon is the start of the end marker.
not-end : (c : ℕ) (s : Text) → (b'_' == c) ≡ false → starts_with result_end_marker (c ∷ s) ≡ false
unfolding starts_with strip_prefix
not-end c s h = rw (h, starts_with) refl

digit-not-end :
    (c : ℕ) (s : Text) → is_digit c ≡ true → starts_with result_end_marker (c ∷ s) ≡ false
digit-not-end c s h = not-end c s (ground arith)

before_first-digits :
    (ds s m : Text)
    → all_digits ds ≡ true
    → before_first result_end_marker s ≡ some m
    → before_first result_end_marker (ds ++ (b':' ∷ s)) ≡ some (ds ++ (b':' ∷ m))
unfolding before_first
before_first-digits [] s m d h = rw (not-end b':' s refl, h, before_first) refl
before_first-digits (c ∷ ds) s m d h =
    rw
      (
        digit-not-end c (ds ++ (b':' ∷ s)) (digits-head c ds d),
        before_first-digits ds s m (digits-tail c ds d) h,
        before_first,
      )
      refl

parse_i64-print_decimal : (n : ℕ) → n < 2 ^ 63 → parse_i64 (print_decimal n) ≡ some (pos n)
unfolding parse_i64 parse_digits
parse_i64-print_decimal n h =
    let (d, u, start, digits, value) = print_decimal-facts n (omega arith) in
    go (print_decimal n) d u start digits value
  where
    small : ltb n (2 ^ 63) ≡ true
    small = ground arith

    go :
        (t : Text) (d : ℕ) (u : Text)
        → t ≡ d ∷ u
        → all_digits t ≡ true
        → decimal_from 0 t ≡ n
        → parse_i64 t ≡ some (pos n)
    go [] d u start digits value = absurd (cc)
    go (c ∷ cs) d u start digits value =
        let here = digits-head c cs digits in
        let minus : (c == b'-') ≡ false = ground arith in
        let plus : (c == b'+') ≡ false = ground arith in
        rw (minus, plus, digits, value, small, parse_i64, parse_digits) refl

-- The status is read as passed exactly if it is one.
status-one : (k : ℕ) → k < 2 ^ 64 → text_eq (print_decimal k) (codes "1") ≡ (k == 1)
unfolding print_decimal decimal_from text_eq
status-one k h = elim (Bool-cases (k == 1)) [
  | inl one ↦
      ap (λ j. text_eq (print_decimal j) (codes "1")) ((==_iff k 1).0 one) ∙ one_lem ∙ sym one
  | inr other ↦ elim (Bool-cases (text_eq (print_decimal k) (codes "1"))) [
    | inl e ↦
        let (d, u, start, digits, value) = print_decimal-facts k h in
        let same : k ≡ 1 =
          sym value
          ∙ ap (decimal_from 0) ((text_eq_iff (print_decimal k) (codes "1")).0 e)
          ∙ refl in
        absurd (ground (arith, same))
    | inr e ↦ e ∙ sym other
  ]
]
  where
    one_lem : text_eq (print_decimal 1) (codes "1") ≡ true
    one_lem = refl

marker-last :
    (t : Text)
    → behind_last result_marker t ≡ none
    → behind_last result_marker (result_marker ++ t) ≡ some t
unfolding behind_last
marker-last t h = rw (h, behind_last) refl

-- The result block behind its marker: the status, the duration, the message, and the end marker in
-- front of the rest of the output.
abbrev pub result_block : ℕ → ℕ → Text → Text → Text
result_block status ns msg rest =
    print_decimal status
    ++ (b':' ∷ (print_decimal ns ++ (b':' ∷ (msg ++ (result_end_marker ++ rest)))))

block-payload :
    (status ns : ℕ) (msg rest : Text)
    → status < 2 ^ 64
    → ns < 2 ^ 63
    → before_first result_end_marker (msg ++ (result_end_marker ++ rest)) ≡ some msg
    → before_first result_end_marker (result_block status ns msg rest)
      ≡ some (print_decimal status ++ (b':' ∷ (print_decimal ns ++ (b':' ∷ msg))))
block-payload status ns msg rest small short h =
    before_first-digits (print_decimal status) _ _ (print_decimal-facts status small).3
      (before_first-digits (print_decimal ns) _ msg (print_decimal-facts ns (omega arith)).3 h)

payload-read :
    (status ns : ℕ) (msg : Text)
    → status < 2 ^ 64
    → ns < 2 ^ 63
    → parse_payload (print_decimal status ++ (b':' ∷ (print_decimal ns ++ (b':' ∷ msg))))
      ≡ some (status == 1, pos ns, msg)
unfolding parse_payload payload_parts timed_parts timed_result message_of
payload-read status ns msg small short =
    let digits = (print_decimal-facts status small).3 in
    let digits' = (print_decimal-facts ns (omega arith)).3 in
    let passed =
      ap (λ t. text_eq t (codes "1")) (trim-digits (print_decimal status) digits)
      ∙ status-one status small in
    let duration =
      ap parse_i64 (trim-digits (print_decimal ns) digits') ∙ parse_i64-print_decimal ns short in
    ap payload_parts
      (split_once-digits (print_decimal status) (print_decimal ns ++ (b':' ∷ msg)) digits)
    ∙ ap (timed_parts _) (split_once-digits (print_decimal ns) msg digits')
    ∙ rw (duration, timed_result) (rw passed refl)

parse_result-block :
    (noise : Text) (status ns : ℕ) (msg rest stdout : Text)
    → stdout ≡ noise ++ (result_marker ++ result_block status ns msg rest)
    → status < 2 ^ 64
    → ns < 2 ^ 63
    → behind_last result_marker (result_block status ns msg rest) ≡ none
    → before_first result_end_marker (msg ++ (result_end_marker ++ rest)) ≡ some msg
    → parse_result stdout ≡ some (status == 1, pos ns, msg)
unfolding parse_result
parse_result-block noise status ns msg rest stdout out small short once ends =
    let block = result_block status ns msg rest in
    let last : behind_last result_marker stdout ≡ some block =
      ap (behind_last result_marker) out
      ∙ behind_last-append result_marker noise (result_marker ++ block) block
          (marker-last block once) in
    rw (last, parse_result)
      (rw (block-payload status ns msg rest small short ends, parse_result)
        (payload-read status ns msg small short))

-- What the test is said to have come to, if its block has this status, duration and message: no
-- message of a test that passed, and none if there is no text.
abbrev expected_result : DiscoveredTest → ℕ → ℕ → Text → TestResult
expected_result test status ns msg = record {
  name = test.name;
  passed = status == 1;
  duration_ns = pos ns;
  panic_message = if status == 1 then none else elim msg [ [] ↦ none | c ∷ cs ↦ some (c ∷ cs) ];
  fingerprint = test.fingerprint;
}

reported-expected :
    (test : DiscoveredTest) (b : Bool) (status ns : ℕ) (msg : Text)
    → (status == 1) ≡ b
    → reported test b (pos ns) msg ≡ expected_result test status ns msg
unfolding reported
reported-expected test true status ns [] e = rw e refl
reported-expected test true status ns (c ∷ cs) e = rw e refl
reported-expected test false status ns [] e = rw e refl
reported-expected test false status ns (c ∷ cs) e = rw e refl

-- If the test process ends, and its output ends with a result block behind whatever the test wrote,
-- then the test is reported under its name and fingerprint with the duration of the block, as passed
-- exactly if the status is one, with no message if it passed or the block's message is empty, and with
-- the block's message otherwise. The block's marker stands nowhere in the block, and the end marker
-- first behind the message; the status is below 2^64 and the duration below 2^63.
pub run_single_test-result_block :
    (spawn : Command → Result Text Output) (bin data_dir noise : Text) (test : DiscoveredTest)
    (status ns : ℕ) (msg rest : Text) (output : Output)
    → spawn (test_command bin test data_dir) ≡ ok output
    → output.stdout ≡ noise ++ (result_marker ++ result_block status ns msg rest)
    → status < 2 ^ 64
    → ns < 2 ^ 63
    → behind_last result_marker (result_block status ns msg rest) ≡ none
    → before_first result_end_marker (msg ++ (result_end_marker ++ rest)) ≡ some msg
    → run_single_test spawn bin test data_dir ≡ record {
      name = test.name;
      passed = status == 1;
      duration_ns = pos ns;
      panic_message = if status == 1 then none else elim msg [ [] ↦ none | c ∷ cs ↦ some (c ∷ cs) ];
      fingerprint = test.fingerprint;
    }
unfolding run_single_test
run_single_test-result_block spawn bin data_dir noise test status ns msg rest output ran out small
      short once ends =
    rw (ran, run_single_test)
      (rw (read, result_of) (reported-expected test (status == 1) status ns msg refl))
  where
    read : parse_result output.stdout ≡ some (status == 1, pos ns, msg)
    read = parse_result-block noise status ns msg rest output.stdout out small short once ends
