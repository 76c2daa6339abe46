-- ===== src/Parser/Terminates.antt =====
-- Every expression takes at least a token, so that what is left to read is fuel enough for a module.
use llmlang.Prelude.{
  ℕ, zero, suc, ◌<◌, ◌≤◌, ◌≡◌, ◌≢◌, refl, ap, subst, [], inl, inr, arith, Bool-cases,
}
use llmlang.Error.{Outcome}
use llmlang.Token.{Token}
use llmlang.Ast.{Expr}
use llmlang.Parser.State.{Host, Parser, M, fail}
use llmlang.Parser.Expr.{
  is_eof, remaining, parse_rest, parse_token, parse_expr, drain, parse_all, parse_module,
}
use llmlang.Parser.Progress.{Leaves, Keeps, Leaves-weaken, and_then-Leaves, consume-strict}
use llmlang.Parser.Productions.{rest-Keeps}

Keeps-le : {A : Type 0} {n b : ℕ} (m : M A) → n ≤ b → Keeps b m → Keeps n m
Keeps-le m h hm = record { at = λ p k lt l. hm.at p k lt (omega arith) }

module _ (host : Host) where
  token-strict :
      (fuel : ℕ) (sub : M Expr) (t : Token) (p : Parser)
      → Keeps fuel sub
      → p.current_token ≡ t
      → remaining p ≤ fuel
      → Leaves (remaining p) (parse_token host sub fuel t p)
  unfolding parse_token fail
  token-strict fuel sub Token.eof p hs c h = tt
  token-strict fuel sub t p hs c h =
      consume-strict host p (parse_rest host sub fuel t) (ap is_eof c)
        (Keeps-le _ h (rest-Keeps host fuel sub hs t))

  pub expr-Leaves :
      (fuel : ℕ) (p : Parser) → remaining p < fuel → Leaves (remaining p) (parse_expr host fuel p)
  unfolding parse_expr
  expr-Leaves zero p h = absurd (omega arith)
  expr-Leaves (suc fuel) p h =
      token-strict fuel (parse_expr host fuel) p.current_token p
        (record {
          at = λ q k lt l.
              Leaves-weaken (parse_expr host fuel q) (omega arith)
                (expr-Leaves fuel q (omega arith));
        })
        refl (omega arith)

  all-Leaves : (fuel : ℕ) (p : Parser) → remaining p < fuel → Leaves fuel (parse_all host fuel p)
  unfolding parse_all drain
  all-Leaves zero p h = absurd (omega arith)
  all-Leaves (suc fuel) p h = elim (Bool-cases (is_eof p.current_token)) [
    | inl e ↦ rw (e, parse_all) h
    | inr e ↦
        rw (e, parse_all)
          (and_then-Leaves (remaining p) (suc fuel) (parse_expr host (suc fuel) p) _
            (expr-Leaves (suc fuel) p h)
            λ expr q lt.
              and_then-Leaves fuel (suc fuel)
                (parse_all host fuel (record q { generated_funcs = [] })) _
                (all-Leaves fuel (record q { generated_funcs = [] }) (omega arith))
                λ later r le. omega arith)
  ]

  -- A module parses to a list of expressions, an error or a panic of the lexer: the fuel that
  -- `parse_module` starts with, one more than the characters left and the current token, never runs out.
  pub parse_module-terminates : (p : Parser) → parse_module host p ≢ Outcome.out_of_fuel
  unfolding parse_module
  parse_module-terminates p e =
      subst (Leaves (suc (remaining p))) e (all-Leaves (suc (remaining p)) p (omega arith))
