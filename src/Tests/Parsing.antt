-- ===== src/Tests/Parsing.antt =====
-- The lexer and the parser at concrete inputs.
use llmlang.Prelude.{
  ℕ, ◌≡◌, ◌≢◌, refl, Bool, false, Text, codes, text_eq, List, [], ◌∷◌, Option, none, some,
  get_elem?, length,
}
use llmlang.Prelude.Int.{pos}
use llmlang.Error.{err, Outcome}
use llmlang.Token.{Token}
use llmlang.Ast.{Expr}
use llmlang.Lexer.{Lexer, new_lexer, next_token}
use llmlang.Lexer.Progress
use llmlang.Lexer.Progress.{next_token-Progress}
use llmlang.Parser.{
  Host, Parser, resolve_variable, parse_module, parse_source, parse_all, parse_expr, parse_token,
  consume, parse_rest, name_expr, drain, binary, parse_define, expect_identifier, identifier_of,
  push_scope, modify, parse_params, parse_param, peek, add_variable, add_to, pop_scope,
}
use llmlang.Parser.Terminates.{parse_module-terminates}
use llmlang.Parser.Names.{FirstAt, in_scope, resolve_variable-FirstAt}

abbrev pub no_letters : ℕ → Bool
no_letters c = false

-- No signature is found, and every amount is nought.
abbrev no_files : Host
no_files = record {
  alphanumeric = no_letters;
  resolve = λ name paths filename. err (codes "E017");
  to_money = λ f. pos 0;
}

abbrev commented : Lexer
commented = new_lexer (codes "/* a */ 12 x")

next_token-Progress_example :
    Progress.Progress (length commented.input) (next_token no_letters commented)
next_token-Progress_example = next_token-Progress no_letters commented

-- Behind the `+` of `+ 1 2`.
abbrev at_sum : Parser
at_sum = record {
  lexer = new_lexer (codes " 1 2");
  current_token = Token.add;
  filename = codes "a.llm";
  scopes = [];
  import_paths = [];
  imported_shapes = [];
  generated_funcs = [];
}

parse_module-terminates_example : parse_module no_files at_sum ≢ Outcome.out_of_fuel
parse_module-terminates_example = parse_module-terminates no_files at_sum

abbrev nested : List (List Text)
nested = (codes "x" ∷ []) ∷ (codes "x" ∷ codes "y" ∷ []) ∷ []

resolve_variable-FirstAt_example :
    ((i : ℕ)
      → resolve_variable nested (codes "y") ≡ some i
      → FirstAt (in_scope nested) (codes "y") i)
    × ((k : ℕ)
        → resolve_variable nested (codes "y") ≡ none
        → get_elem? (in_scope nested) k ≢ some (codes "y"))
resolve_variable-FirstAt_example = resolve_variable-FirstAt nested (codes "y")

abbrev parsed : Outcome (List Expr × Parser) → Option (List Expr)
parsed (Outcome.ok (es, p)) = some es
parsed _ = none

-- The body of `f` refers to its parameters by their indices, and to what is not in scope by name.
parse_define_test :
    parsed (parse_source no_files (codes ": f x y . x + y z") (codes "a.llm") [])
    ≡ some (
        Expr.define
          (codes "f")
          (record { name = codes "x"; expand = false }
            ∷ record { name = codes "y"; expand = false }
            ∷ [])
          (Expr.seq
            (Expr.de_bruijn 1)
            (Expr.binary_op Token.add (Expr.de_bruijn 0) (Expr.identifier (codes "z"))))
          false
        ∷ [])
unfolding parse_source next_token new_lexer parse_all text_eq parse_expr parse_token consume
    parse_rest name_expr resolve_variable drain binary parse_define expect_identifier identifier_of
    push_scope modify parse_params parse_param peek add_variable add_to pop_scope
parse_define_test = refl
