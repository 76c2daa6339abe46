-- ===== src/Lexer/Chars.antt =====
-- src/compiler/lexer/mod.rs: the characters, the tokens of one character and the keywords.
use llmlang.Prelude.{
  ℕ, Bool, ◌||◌, Text, codes, List, [], ◌∷◌, Option, none, some, ◌==◌, ltb, within, is_digit,
  if◌then◌else◌, lookup,
}
use llmlang.Token.{Token}

-- `char::is_whitespace`: the Unicode property White_Space.
unfoldable pub is_whitespace : ℕ → Bool
is_whitespace c =
    within 9 13 c
    || c == 32
    || c == 0x85
    || c == 0xa0
    || c == 0x1680
    || within 0x2000 0x200a c
    || c == 0x2028
    || c == 0x2029
    || c == 0x202f
    || c == 0x205f
    || c == 0x3000

unfoldable pub is_letter : ℕ → Bool
is_letter c = within b'a' b'z' c || within b'A' b'Z' c

-- `char::is_alphanumeric`; `wide` answers for the characters that are not ASCII.
unfoldable pub is_alphanumeric : (ℕ → Bool) → ℕ → Bool
unfolding is_letter
is_alphanumeric wide c = if ltb c 128 then is_letter c || is_digit c else wide c

unfoldable pub single_tokens : List (ℕ × Token)
single_tokens =
    (b'+', Token.add)
    ∷ (b'-', Token.sub)
    ∷ (b'*', Token.mul)
    ∷ (b'>', Token.move)
    ∷ (b'$', Token.borrow)
    ∷ (b'~', Token.mut_borrow)
    ∷ (b'=', Token.eq)
    ∷ (b'<', Token.lt)
    ∷ (b'.', Token.dot)
    ∷ (b'&', Token.bit_and)
    ∷ (b'|', Token.bit_or)
    ∷ (b':', Token.define)
    ∷ (b'#', Token.shape)
    ∷ (b'?', Token.question)
    ∷ (b'!', Token.panic)
    ∷ (b'`', Token.bang)
    ∷ (b'(', Token.read)
    ∷ (b')', Token.write)
    ∷ (b'%', Token.money)
    ∷ (b'N', Token.new)
    ∷ (b'G', Token.get)
    ∷ (b'S', Token.set)
    ∷ (b'M', Token.metadata)
    ∷ (b'X', Token.export)
    ∷ (b'L', Token.let_in)
    ∷ (b'I', Token.import)
    ∷ []

unfoldable pub find_single : ℕ → List (ℕ × Token) → Option Token
find_single c [] = none
find_single c ((d, t) ∷ ts) = if d == c then some t else find_single c ts

unfoldable pub keywords : List (Text × Token)
keywords =
    (codes "map", Token.map)
    ∷ (codes "flt", Token.filter)
    ∷ (codes "http", Token.http_client)
    ∷ (codes "srv", Token.http_server)
    ∷ (codes "rt", Token.router)
    ∷ (codes "hdr", Token.http_header)
    ∷ (codes "env", Token.env)
    ∷ (codes "fo", Token.file_open)
    ∷ (codes "jp", Token.pack 1)
    ∷ (codes "ju", Token.pack 2)
    ∷ (codes "oe", Token.otel_emit 4)
    ∷ (codes "sl", Token.len)
    ∷ (codes "sc", Token.cat)
    ∷ (codes "ss", Token.str_sub)
    ∷ (codes "sf", Token.loc)
    ∷ (codes "sr", Token.reg)
    ∷ (codes "sp", Token.split)
    ∷ (codes "tn", Token.time_now)
    ∷ (codes "tns", Token.time_nano)
    ∷ (codes "tz", Token.time_zone)
    ∷ (codes "tg", Token.time_get)
    ∷ (codes "ts", Token.time_set)
    ∷ (codes "str", Token.str)
    ∷ (codes "gt", Token.gt)
    ∷ (codes "lt", Token.lt)
    ∷ (codes "xor", Token.bit_xor)
    ∷ []

unfoldable pub word_token : Text → Token
unfolding keywords lookup
word_token id_str = elim (lookup id_str keywords) [ none ↦ Token.identifier id_str | some t ↦ t ]
