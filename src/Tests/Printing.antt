-- ===== src/Tests/Printing.antt =====
-- The printer at concrete inputs.
use llmlang.Prelude.Int.{negsuc}
use llmlang.Prelude.{◌≡◌, refl, Text, codes, [], ◌++◌, arith}
use llmlang.Prelude.Int.{pos}
use llmlang.Error.{Outcome}
use llmlang.Token.{Token, Float}
use llmlang.Ast.{Expr}
use llmlang.Lexer.{Lexer, next_token}
use llmlang.Printer.{print}
use llmlang.Printer.Literals.{next_token-print_string}
use llmlang.Printer.Numbers.{next_token-print_integer}
use llmlang.Tests.Parsing.{no_letters}

abbrev shown : Float → Text
shown f = f.whole

abbrev empty : Lexer
empty = record { input = []; line = 3; filename = codes "a.llm" }

next_token-print_string_example :
    next_token no_letters
      (record empty { input = print shown 2 (Expr.string (codes "a\"b\\\n")) ++ codes " 1" })
    ≡ Outcome.ok (Token.string (codes "a\"b\\\n"), record empty { input = codes " 1" })
next_token-print_string_example =
    next_token-print_string shown no_letters 2 (codes "a\"b\\\n") (codes " 1") empty

next_token-print_integer_example :
    (next_token no_letters
        (record empty { input = print shown 0 (Expr.integer (pos 1024)) ++ codes " x" })
      ≡ Outcome.ok (Token.integer (pos 1024), record empty { input = codes " x" }))
    × (next_token no_letters
          (record empty { input = print shown 0 (Expr.integer (negsuc 1024)) ++ codes " x" })
        ≡ Outcome.ok (
          Token.sub,
          record empty { input = print shown 0 (Expr.integer (pos 1025)) ++ codes " x" },
        ))
next_token-print_integer_example =
    next_token-print_integer shown no_letters 0 1024 (codes " x") empty (omega arith) refl
