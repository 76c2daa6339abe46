-- ===== src/Codegen/Reads.antt =====
-- src/compiler/analysis/verify.rs: the checks that only read their context.
use llmlang.Prelude.{
  ◌≡◌, refl, ◌∙◌, Bool, true, false, Text, codes, Option, none, some, contains_key, if◌then◌else◌,
}
use llmlang.Token.{Token}
use llmlang.Ast.{Expr}
use llmlang.Error.{Result, ok, err, bind}
use llmlang.Verify.{
  VerificationContext, Check, ◌>>◌, infer_shape, has_field, is_operator, unknown_identifier,
  check_field, check_shape, check_inferred, check_mapped, check_function, check_callee,
  check_operator, check_identifier,
}
use llmlang.Codegen.Follows.{Keeps}

if-Keeps : (b : VerificationContext → Bool) (e : Text) → Keeps (λ c. if b c then ok c else err e)
if-Keeps b e c c' h = at (b c) h
  where
    at :
        (t : Bool)
        → ◌≡◌ {A = Result Text VerificationContext} (if t then ok c else err e) (ok c')
        → c ≡ c'
    at true h' = cc
    at false h' = absurd (cc (h'))

pub operator-Keeps : (op : Token) → Keeps (check_operator op)
unfolding check_operator
operator-Keeps op = if-Keeps (λ _. is_operator op) (codes "E008")

pub shape-Keeps : (name : Text) → Keeps (check_shape name)
unfolding check_shape
shape-Keeps name = if-Keeps (λ c. contains_key name c.shapes) (codes "E006")

pub field-Keeps : (e : Expr) (field : Text) → Keeps (check_field e field)
unfolding check_field
field-Keeps e field =
    if-Keeps (λ c. has_field c (infer_shape e c.stack_shapes) field) (codes "E007")

pub inferred-Keeps : (e : Expr) → Keeps (check_inferred e)
unfolding check_inferred
inferred-Keeps e c c' h = at (infer_shape e c.stack_shapes) h
  where
    at :
        (o : Option Text)
        → (elim o as (λ _. Result Text VerificationContext) [
          | none ↦ err (codes "E006")
          | some name ↦ check_shape name c
        ])
          ≡ ok c'
        → c ≡ c'
    at none z = absurd (cc (z))
    at (some name) z = shape-Keeps name c c' z

pub both-Keeps : (p q : Check) → Keeps p → Keeps q → Keeps (p >> q)
both-Keeps p q hp hq c c' h = at (p c) refl h
  where
    at : (r : Result Text VerificationContext) → p c ≡ r → bind r q ≡ ok c' → c ≡ c'
    at (ok d) t z = hp c d t ∙ hq d c' z
    at (err x) t z = absurd (cc (z))

pub mapped-Keeps : (e : Expr) (field : Text) → Keeps (check_mapped e field)
unfolding check_mapped
mapped-Keeps e field =
    both-Keeps (check_inferred e) (check_field e field) (inferred-Keeps e) (field-Keeps e field)

pub function-Keeps : (e : Expr) → Keeps (check_function e)
unfolding check_function
function-Keeps (Expr.identifier name) = if-Keeps (λ c. contains_key name c.functions) (codes "E010")
function-Keeps _ = λ c c' h. cc

pub callee-Keeps : (e : Expr) → Keeps (check_callee e)
unfolding check_callee
callee-Keeps (Expr.identifier name) = if-Keeps (λ c. contains_key name c.functions) (codes "E010")
callee-Keeps _ = λ c c' h. absurd (cc (h))

pub identifier-Keeps : (name : Text) → Keeps (check_identifier name)
unfolding check_identifier
identifier-Keeps name = if-Keeps (λ c. contains_key name c.functions) (unknown_identifier name)
