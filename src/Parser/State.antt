-- ===== src/Parser/State.antt =====
-- src/compiler/parser/mod.rs: `Parser`, its scopes, and the steps that take a token. A method is a
-- function of the parser to its result with the new parser. Scopes, and the variables of a scope,
-- are kept with the last one first.
use llmlang.Prelude.{
  ℕ, ◌+◌, Bool, Text, codes, text_eq, List, [], ◌∷◌, ◌++◌, Option, none, some, if◌then◌else◌,
  length, pop,
}
use llmlang.Prelude.Int.{ℤ}
use llmlang.Error.{Result, Outcome, and_then}
use llmlang.Token.{Token, Float}
use llmlang.Ast.{Expr}
use llmlang.Lexer.{Lexer, next_token}

-- What the parser takes from elsewhere: the letters that are not ASCII, the resolver of module
-- signatures (`SignatureResolver`), and `(val * 10000.0) as i64` on floats.
pub record Host : Type 0 where
  pub alphanumeric : ℕ → Bool
  pub resolve : Text → List Text → Text → Result Text Text
  pub to_money : Float → ℤ

pub record Parser : Type 0 where
  pub lexer : Lexer
  pub current_token : Token
  pub filename : Text
  pub scopes : List (List Text)
  pub import_paths : List Text
  pub imported_shapes : List (Text × Text)
  pub generated_funcs : List Expr

abbrev pub M : Type 0 → Type 0
M A = Parser → Outcome (A × Parser)

abbrev pub pure : {A : Type 0} → A → M A
pure a p = Outcome.ok (a, p)

infixl 5 ◌>>=◌ ◌>>◌
abbrev pub ◌>>=◌ : {A B : Type 0} → M A → (A → M B) → M B
m >>= k = λ p. and_then (m p) λ (a, q). k a q

abbrev pub ◌>>◌ : {A B : Type 0} → M A → M B → M B
m >> k = m >>= λ _. k

-- `return Err(self.error(code))`
unfoldable pub fail : {A : Type 0} → Text → M A
fail code p = Outcome.err (record { code = code; filename = p.filename; line = p.lexer.line })

unfoldable pub peek : M Token
peek p = Outcome.ok (p.current_token, p)

unfoldable pub modify : (Parser → Parser) → M (Unit {0})
modify f p = Outcome.ok (tt, f p)

unfoldable pub push_scope : M (Unit {0})
push_scope = modify (λ p. record p { scopes = [] ∷ p.scopes })

unfoldable pub pop_scope : M (Unit {0})
pop_scope = modify (λ p. record p { scopes = pop p.scopes })

unfoldable pub add_to : Text → List (List Text) → List (List Text)
add_to name [] = []
add_to name (scope ∷ scopes) = (name ∷ scope) ∷ scopes

unfoldable pub add_variable : Text → M (Unit {0})
add_variable name = modify (λ p. record p { scopes = add_to name p.scopes })

unfoldable pub drop_from : List (List Text) → List (List Text)
drop_from [] = []
drop_from (scope ∷ scopes) = pop scope ∷ scopes

-- The end of a `let`: its variable leaves the last scope.
unfoldable pub drop_variable : M (Unit {0})
drop_variable = modify (λ p. record p { scopes = drop_from p.scopes })

unfoldable pub resolve_in : List Text → Text → ℕ → Option ℕ
unfolding text_eq
resolve_in [] name i = none
resolve_in (var ∷ scope) name i = if text_eq var name then some i else resolve_in scope name (i + 1)

unfoldable pub resolve_from : List (List Text) → Text → ℕ → Option ℕ
unfolding resolve_in
resolve_from [] name index = none
resolve_from (scope ∷ scopes) name index =
    let outer = resolve_from scopes name (index + length scope) in
    elim (resolve_in scope name index) [ some i ↦ some i | none ↦ outer ]

unfoldable pub resolve_variable : List (List Text) → Text → Option ℕ
unfolding resolve_from
resolve_variable scopes name = resolve_from scopes name 0

unfoldable pub resolve_shape : List (Text × Text) → Text → Text
unfolding text_eq
resolve_shape [] name = name
resolve_shape ((sym, module_name) ∷ shapes) name =
    if text_eq sym name then module_name ++ (codes "_" ++ name) else resolve_shape shapes name

unfoldable pub resolve_shape_name : Text → M Text
resolve_shape_name name p = Outcome.ok (resolve_shape p.imported_shapes name, p)

unfoldable pub identifier_of : Token → M Text
identifier_of (Token.identifier s) = pure s
identifier_of _ = fail (codes "E002")

unfoldable pub string_of : Token → M Text
string_of (Token.string s) = pure s
string_of _ = fail (codes "E002")

module _ (host : Host) where
  -- The current token, which gives way to the next.
  unfoldable pub consume : M Token
  consume p =
      and_then (next_token host.alphanumeric p.lexer)
        λ (t, l). Outcome.ok (p.current_token, record p { lexer = l; current_token = t })

  unfoldable pub expect_identifier : M Text
  expect_identifier = do t ← consume; identifier_of t

  unfoldable pub expect_string : M Text
  expect_string = do t ← consume; string_of t

-- `Parser::new`
unfoldable pub new_parser : Host → Lexer → Text → Outcome Parser
new_parser host lexer filename =
    and_then (next_token host.alphanumeric (record lexer { filename = filename })) λ (t, l).
      Outcome.ok (record {
        lexer = l;
        current_token = t;
        filename = filename;
        scopes = [];
        import_paths = [];
        imported_shapes = [];
        generated_funcs = [];
      })
