-- ===== src/Token.antt =====
-- src/compiler/lexer/mod.rs: the tokens. An `f64` is kept as the decimal numeral that it was read
-- from: a numeral's digits in front of its point and behind it. Binary rounding is not modelled.
use llmlang.Prelude.{ℕ, Text}
use llmlang.Prelude.Int.{ℤ}

pub record Float : Type 0 where
  pub whole : Text
  pub fraction : Text

pub data Token : Type 0 where
  apply : ℕ → Token
  add sub mul div : Token
  move borrow mut_borrow : Token
  define shape : Token
  de_bruijn : ℕ → Token
  question bang : Token
  new get set : Token
  export let_in import : Token
  eq lt gt dot : Token
  bit_and bit_or bit_xor : Token
  string : Text → Token
  len cat str_sub : Token
  otel_emit : ℕ → Token
  loc reg read write str split : Token
  pack : ℕ → Token
  map filter money panic trap : Token
  time_now time_nano time_zone time_get time_set : Token
  metadata env : Token
  http_client http_server file_open router http_header : Token
  identifier : Text → Token
  integer : ℤ → Token
  float : Float → Token
  eof : Token
