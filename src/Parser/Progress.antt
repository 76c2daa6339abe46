-- ===== src/Parser/Progress.antt =====
-- Parsing takes tokens: no call runs out of the fuel that stands for what is left to read.
use llmlang.Prelude.{
  ℕ, suc, ◌<◌, ◌≤◌, ◌≡◌, refl, Bool, true, false, Text, codes, inl, inr, if◌then◌else◌, length,
  arith, Bool-cases,
}
use llmlang.Error.{Outcome, and_then}
use llmlang.Token.{Token}
use llmlang.Lexer.{Lexer, next_token}
use llmlang.Lexer.Progress
use llmlang.Lexer.Progress.{next_token-Progress}
use llmlang.Parser.State.{
  Host, Parser, M, pure, ◌>>=◌, ◌>>◌, fail, peek, modify, push_scope, pop_scope, add_variable,
  drop_variable, resolve_shape_name, consume, expect_identifier, expect_string, identifier_of,
  string_of,
}
use llmlang.Parser.Expr.{is_eof, remaining}

-- The run did not run out of fuel, and `b` bounds what it leaves.
abbrev pub Leaves : {A : Type 0} → ℕ → Outcome (A × Parser) → Type 0
Leaves b (Outcome.ok (a, p)) = remaining p < b
Leaves b Outcome.out_of_fuel = ⊥
Leaves b _ = Unit

-- From a state with less than `b` left, less than `b` is left.
pub record Keeps {A : Type 0} (b : ℕ) (m : M A) : Type 0 where
  pub at : (p : Parser) (k : ℕ) → remaining p < k → k ≤ b → Leaves k (m p)

pub Leaves-weaken :
    {A : Type 0} {n k : ℕ} (r : Outcome (A × Parser)) → n ≤ k → Leaves n r → Leaves k r
Leaves-weaken (Outcome.ok (a, q)) h l = omega arith
Leaves-weaken (Outcome.err _) h l = tt
Leaves-weaken Outcome.panic h l = tt
Leaves-weaken Outcome.out_of_fuel h l = l

Leaves-token :
    (n : ℕ) (p : Parser) (r : Outcome (Token × Lexer))
    → Progress.Progress n r
    → Leaves (suc n) (
        and_then r
          (λ (t, l). Outcome.ok (p.current_token, record p { lexer = l; current_token = t })))
Leaves-token n p (Outcome.ok (t, l)) (inl (_, h)) = elim (Bool-cases (is_eof t)) [
  | inl e ↦ rw e (omega arith)
  | inr e ↦ rw e (omega arith)
]
Leaves-token n p (Outcome.ok (t, l)) (inr (e, h)) = rw (e, h) (omega arith)
Leaves-token n p (Outcome.err _) h = tt
Leaves-token n p Outcome.panic h = tt
Leaves-token n p Outcome.out_of_fuel h = h

-- Behind `consume` there is no more than the characters that there were.
pub consume-Leaves :
    (host : Host) (p : Parser) → Leaves (suc (length p.lexer.input)) (consume host p)
unfolding consume
consume-Leaves host p =
    Leaves-token (length p.lexer.input) p (next_token host.alphanumeric p.lexer)
      (next_token-Progress host.alphanumeric p.lexer)

pub and_then-Leaves :
    {A B : Type 0} (j k : ℕ) (r : Outcome (A × Parser)) (f : A → M B)
    → Leaves j r
    → ((a : A) (q : Parser) → remaining q < j → Leaves k (f a q))
    → Leaves k (and_then r λ (a, q). f a q)
and_then-Leaves j k (Outcome.ok (a, q)) f h g = g a q h
and_then-Leaves j k (Outcome.err _) f h g = tt
and_then-Leaves j k Outcome.panic f h g = tt
and_then-Leaves j k Outcome.out_of_fuel f h g = h

-- Behind a token that is not the end there is less.
pub consume-strict :
    (host : Host) {A : Type 0} (p : Parser) (m : M A)
    → is_eof p.current_token ≡ false
    → Keeps (remaining p) m
    → Leaves (remaining p) ((consume host >> m) p)
consume-strict host p m e h =
    and_then-Leaves (remaining p) (remaining p) (consume host p) (λ _. m)
      (Leaves-weaken (consume host p) (rw e (omega arith)) (consume-Leaves host p))
      (λ _ q lt. h.at q (remaining p) lt (omega arith))

module _ (b : ℕ) where
  pub Keeps-pure : {A : Type 0} (a : A) → Keeps b (pure a)
  Keeps-pure a = record { at = λ p k h l. h }

  pub Keeps-fail : (A : Type 0) (code : Text) → Keeps b (fail {A = A} code)
  unfolding fail
  Keeps-fail A code = record { at = λ p k h l. tt }

  pub Keeps-peek : Keeps b peek
  unfolding peek
  Keeps-peek = record { at = λ p k h l. h }

  pub Keeps-bind :
      {A B : Type 0} (m : M A) (f : A → M B)
      → Keeps b m
      → ((a : A) → Keeps b (f a))
      → Keeps b (m >>= f)
  Keeps-bind m f hm hf = record {
    at = λ p k h l. and_then-Leaves k k (m p) f (hm.at p k h l) (λ a q lt. (hf a).at q k lt l);
  }

  pub Keeps-then : {A B : Type 0} (m : M A) (n : M B) → Keeps b m → Keeps b n → Keeps b (m >> n)
  Keeps-then m n hm hn = Keeps-bind m (λ _. n) hm (λ _. hn)

  pub Keeps-if :
      {A : Type 0} (c : Bool) (m n : M A) → Keeps b m → Keeps b n → Keeps b (if c then m else n)
  Keeps-if true m n hm hn = hm
  Keeps-if false m n hm hn = hn

  pub Keeps-consume : (host : Host) → Keeps b (consume host)
  Keeps-consume host = record {
    at = λ p k h l. Leaves-weaken (consume host p) (omega arith) (consume-Leaves host p);
  }

  -- A change of the scopes, of the imported shapes or of the generated functions.
  pub Keeps-modify :
      (f : Parser → Parser) → ((p : Parser) → remaining (f p) ≡ remaining p) → Keeps b (modify f)
  unfolding modify
  Keeps-modify f h = record { at = λ p k lt l. omega (arith, h p) }

  pub Keeps-push_scope : Keeps b push_scope
  unfolding push_scope
  Keeps-push_scope = Keeps-modify _ (λ p. refl)

  pub Keeps-pop_scope : Keeps b pop_scope
  unfolding pop_scope
  Keeps-pop_scope = Keeps-modify _ (λ p. refl)

  pub Keeps-add_variable : (name : Text) → Keeps b (add_variable name)
  unfolding add_variable
  Keeps-add_variable name = Keeps-modify _ (λ p. refl)

  pub Keeps-drop_variable : Keeps b drop_variable
  unfolding drop_variable
  Keeps-drop_variable = Keeps-modify _ (λ p. refl)

  pub Keeps-resolve_shape_name : (name : Text) → Keeps b (resolve_shape_name name)
  unfolding resolve_shape_name
  Keeps-resolve_shape_name name = record { at = λ p k h l. h }

  Keeps-identifier_of : (t : Token) → Keeps b (identifier_of t)
  unfolding identifier_of
  Keeps-identifier_of (Token.identifier s) = Keeps-pure s
  Keeps-identifier_of _ = Keeps-fail Text (codes "E002")

  Keeps-string_of : (t : Token) → Keeps b (string_of t)
  unfolding string_of
  Keeps-string_of (Token.string s) = Keeps-pure s
  Keeps-string_of _ = Keeps-fail Text (codes "E002")

  pub Keeps-identifier : (host : Host) → Keeps b (expect_identifier host)
  unfolding expect_identifier
  Keeps-identifier host =
      Keeps-bind (consume host) identifier_of (Keeps-consume host) Keeps-identifier_of

  pub Keeps-string : (host : Host) → Keeps b (expect_string host)
  unfolding expect_string
  Keeps-string host = Keeps-bind (consume host) string_of (Keeps-consume host) Keeps-string_of
