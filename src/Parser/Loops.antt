-- ===== src/Parser/Loops.antt =====
-- The steps and the loops of src/compiler/parser/mod.rs keep within what is left to read.
use llmlang.Prelude.{
  ℕ, zero, suc, ◌<◌, ◌≡◌, refl, false, Text, codes, List, inl, inr, some, length, arith,
  Option-cases,
}
use llmlang.Prelude.Int.{pos, negsuc}
use llmlang.Error.{Result, ok, err, Outcome}
use llmlang.Token.{Token}
use llmlang.Ast.{Expr}
use llmlang.Parser.State.{Host, Parser, fail, resolve_variable, consume}
use llmlang.Parser.Grammar.{
  exported, route_count, module_name_of, imported, generate, load_signature, parse_param,
  parse_params, as_identifier, is_bang, parse_fields,
}
use llmlang.Parser.Signature.{Signature, find_named, read_signature}
use llmlang.Parser.Router.{Route, dispatch_tree, loop_name_of}
use llmlang.Parser.Expr.{is_eof, remaining, name_expr}
use llmlang.Parser.Progress.{
  Leaves, Keeps, consume-Leaves, Keeps-pure, Keeps-fail, Keeps-peek, Keeps-bind, Keeps-then,
  Keeps-if, Keeps-consume, Keeps-push_scope, Keeps-pop_scope, Keeps-add_variable,
  Keeps-drop_variable, Keeps-resolve_shape_name, Keeps-identifier, Keeps-string, Keeps-modify,
  and_then-Leaves, consume-strict,
}

pub ruleset keeps = (
  Keeps-pure, Keeps-fail, Keeps-peek, Keeps-bind, Keeps-if, Keeps-consume, Keeps-push_scope,
  Keeps-pop_scope, Keeps-add_variable, Keeps-drop_variable, Keeps-resolve_shape_name,
  Keeps-identifier, Keeps-string,
)

module _ (host : Host) (b : ℕ) where
  pub load-Keeps : (name : Text) → Keeps b (load_signature host name)
  unfolding load_signature fail
  load-Keeps name = record {
    at = λ p k h l. go p k h (host.resolve name p.import_paths p.filename);
  }
    where
      go :
          (p : Parser) (k : ℕ)
          → remaining p < k
          → (r : Result Text Text)
          → Leaves k (elim r [
            | ok content ↦ Outcome.ok (read_signature content, p)
            | err code ↦ fail {A = Signature} code p
          ])
      go p k h (ok content) = h
      go p k h (err code) = tt

  pub imported-Keeps :
      (module_name symbol : Text) (sig : Signature) → Keeps b (imported module_name symbol sig)
  unfolding imported
  imported-Keeps module_name symbol sig = elim (Option-cases (find_named symbol sig.shapes)) [
    | inr (fields, e) ↦
        rw (e, imported) (Keeps-then b _ _ (Keeps-modify b _ (λ p. refl)) (Keeps-pure b _))
    | inl e ↦ elim (Option-cases (find_named symbol sig.funcs)) [
      | inr (arity, f) ↦ rw (e, f, imported) (Keeps-pure b _)
      | inl f ↦ rw (e, f, imported) (Keeps-fail b _ (codes "E018"))
    ]
  ]

  pub module_name-Keeps : (t : Token) → Keeps b (module_name_of t)
  unfolding module_name_of
  module_name-Keeps (Token.identifier s) = Keeps-pure b s
  module_name-Keeps Token.http_client = Keeps-pure b (codes "http")
  module_name-Keeps _ = Keeps-fail b Text (codes "E002")

  pub exported-Keeps : (e : Expr) → Keeps b (exported e)
  unfolding exported
  exported-Keeps (Expr.define _ _ _ _) = Keeps-pure b _
  exported-Keeps (Expr.shape _ _ _) = Keeps-pure b _
  exported-Keeps _ = Keeps-fail b Expr (codes "E015")

  pub count-Keeps : (t : Token) → Keeps b (route_count t)
  unfolding route_count
  count-Keeps (Token.integer (pos n)) = Keeps-pure b n
  count-Keeps (Token.integer (negsuc n)) = Keeps-pure b 0
  count-Keeps _ = Keeps-fail b ℕ (codes "E001")

  pub generate-Keeps :
      (port fallback : Expr) (routes : List Route) → Keeps b (generate port fallback routes)
  unfolding generate fail
  generate-Keeps port fallback routes = record {
    at = λ p k h l.
        elim (Option-cases
          (dispatch_tree (loop_name_of (length p.generated_funcs)) fallback routes)) [
            | inl e ↦ rw (e, generate) tt
            | inr (tree, e) ↦ rw (e, generate) h
          ];
  }

  pub name-Keeps : (s : Text) → Keeps b (name_expr s)
  unfolding name_expr
  name-Keeps s = record {
    at = λ p k h l. elim (Option-cases (resolve_variable p.scopes s)) [
      | inl e ↦ rw (e, name_expr) h
      | inr (i, e) ↦ rw (e, name_expr) h
    ];
  }

pub not_eof : (t : Token) {s : Text} → as_identifier t ≡ some s → is_eof t ≡ false
not_eof Token.eof e = cc
not_eof _ e = refl

-- Loops over identifiers, on fuel that covers what is left.
module _ (host : Host) where
  pub param-strict :
      (p : Parser) (name : Text)
      → is_eof p.current_token ≡ false
      → Leaves (remaining p) (parse_param host name p)
  unfolding parse_param
  param-strict p name e =
      let b = remaining p in
      consume-strict host p _ e (
        Keeps-bind b _ _ (Keeps-peek b) λ t.
          Keeps-bind b _ _ (Keeps-if b (is_bang t) _ _ (search keeps) (search keeps))
            λ _. Keeps-bind b _ _ (Keeps-add_variable b name) λ _. search keeps)

  pub params-Leaves :
      (fuel : ℕ) (p : Parser) (k : ℕ)
      → remaining p < k
      → remaining p < fuel
      → Leaves k (parse_params host fuel p)
  unfolding parse_params
  params-Leaves zero p k h f = absurd (omega arith)
  params-Leaves (suc fuel) p k h f = elim (Option-cases (as_identifier p.current_token)) [
    | inl e ↦ rw (e, parse_params) h
    | inr (name, e) ↦
        rw (e, parse_params)
          (and_then-Leaves (remaining p) k (parse_param host name p) _
            (param-strict p name (not_eof p.current_token e))
            λ param q lt.
              and_then-Leaves k k (parse_params host fuel q) _
                (params-Leaves fuel q k (omega arith) (omega arith)) λ params r le. le)
  ]

  pub fields-Leaves :
      (fuel : ℕ) (p : Parser) (k : ℕ)
      → remaining p < k
      → remaining p < fuel
      → Leaves k (parse_fields host fuel p)
  unfolding parse_fields
  fields-Leaves zero p k h f = absurd (omega arith)
  fields-Leaves (suc fuel) p k h f = elim (Option-cases (as_identifier p.current_token)) [
    | inl e ↦ rw (e, parse_fields) h
    | inr (name, e) ↦
        rw (e, parse_fields)
          (and_then-Leaves (suc (length p.lexer.input)) k (consume host p) _ (consume-Leaves host p)
            λ _ q lt.
              let short : remaining q < remaining p =
                rw (not_eof p.current_token e) (omega arith) in
              and_then-Leaves k k (parse_fields host fuel q) _
                (fields-Leaves fuel q k (omega arith) (omega arith)) λ fields r le. le)
  ]

  pub params-Keeps : (b : ℕ) → Keeps b (parse_params host b)
  params-Keeps b = record { at = λ p k h l. params-Leaves b p k h (omega arith) }

  pub fields-Keeps : (b : ℕ) → Keeps b (parse_fields host b)
  fields-Keeps b = record { at = λ p k h l. fields-Leaves b p k h (omega arith) }
