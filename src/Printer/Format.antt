-- ===== src/Printer/Format.antt =====
-- src/compiler/ast/display.rs: `PrettyExpr` and its `Display`. What `{}` writes for an `f64` is a
-- parameter.
use llmlang.Prelude.{
  ℕ, zero, suc, ◌+◌, Bool, Text, codes, List, [], ◌∷◌, ◌++◌, if◌then◌else◌, any, ◌==◌,
  print_decimal,
}
use llmlang.Prelude.Int.{ℤ, pos, negsuc}
use llmlang.Token.{Token, Float}
use llmlang.Ast.{Param, Expr, Exprs}

abbrev pub escape_char : ℕ → Text
escape_char c =
    if c == b'\\'
    then codes "\\\\"
    else if c == b'"'
    then codes "\\\""
    else if c == b'\n'
    then codes "\\n"
    else if c == b'\t'
    then codes "\\t"
    else if c == b'\r'
    then codes "\\r"
    else c ∷ []

unfoldable pub escape_string : Text → Text
escape_string [] = []
escape_string (c ∷ s) = escape_char c ++ escape_string s

unfoldable pub format_token : Token → Text
format_token Token.add = codes "+"
format_token Token.sub = codes "-"
format_token Token.mul = codes "*"
format_token Token.div = codes "/"
format_token Token.eq = codes "="
format_token Token.lt = codes "<"
format_token Token.gt = codes "gt"
format_token Token.bit_and = codes "&"
format_token Token.bit_or = codes "|"
format_token Token.bit_xor = codes "xor"
format_token _ = codes "???"

-- `"    ".repeat(depth)`
unfoldable pub indent : ℕ → Text
indent zero = []
indent (suc depth) = codes "    " ++ indent depth

unfoldable pub print_integer : ℤ → Text
unfolding print_decimal
print_integer (pos n) = print_decimal n
print_integer (negsuc n) = codes "-" ++ print_decimal (n + 1)

-- A whole float keeps a point.
abbrev pub with_point : Text → Text
with_point s = if any (λ c. c == b'.') s then s else s ++ codes ".0"

-- The parts with a blank between them.
unfoldable pub spaced : List Text → Text
spaced [] = []
spaced (t ∷ []) = t
spaced (t ∷ u ∷ ts) = t ++ (b' ' ∷ spaced (u ∷ ts))

-- Each name behind a blank.
unfoldable pub print_names : List Text → Text
print_names [] = []
print_names (n ∷ ns) = b' ' ∷ (n ++ print_names ns)

unfoldable pub print_params : List Param → Text
print_params [] = []
print_params (p ∷ ps) = b' ' ∷ (p.name ++ ((if p.expand then codes "`" else []) ++ print_params ps))

abbrev pub export_mark : Bool → Text
export_mark exported = if exported then codes "X " else []

abbrev pub quoted : Text → Text
quoted s = codes "\"" ++ (s ++ codes "\"")

abbrev pub length_args : Exprs → ℕ
length_args Exprs.nil = 0
length_args (Exprs.cons _ es) = suc (length_args es)

module _ (show_float : Float → Text) where
  unfoldable mutual
    unfolding format_token escape_string print_integer spaced indent print_names print_params
        print_decimal

    pub print : ℕ → Expr → Text
    print d (Expr.integer i) = print_integer i
    print d (Expr.float f) = with_point (show_float f)
    print d (Expr.de_bruijn idx) = codes "^" ++ print_decimal idx
    print d (Expr.identifier s) = s
    print d (Expr.binary_op tok l r) = spaced (format_token tok ∷ print d l ∷ print d r ∷ [])
    print d (Expr.apply func args) =
        codes "@"
        ++ (print_decimal (length_args args) ++ (b' ' ∷ (print d func ++ print_args d args)))
    print d (Expr.define name params body exported) =
        export_mark exported
        ++ (codes ": "
            ++ (name
                ++ (print_params params ++ (codes "\n    " ++ (indent d ++ print (d + 1) body)))))
    print d (Expr.shape name fields exported) =
        export_mark exported ++ (codes "# " ++ (name ++ print_names fields))
    print d (Expr.new shape count) = spaced (codes "N" ∷ shape ∷ print d count ∷ [])
    print d (Expr.get inst field idx) = spaced (codes "G" ∷ print d inst ∷ field ∷ print d idx ∷ [])
    print d (Expr.set inst field idx val) =
        spaced (codes "S" ∷ print d inst ∷ field ∷ print d idx ∷ print d val ∷ [])
    print d (Expr.if_else cond t f) =
        codes "? "
        ++ (print d cond
            ++ (codes "\n    "
                ++ (indent d
                    ++ (print (d + 1) t ++ (codes "\n    " ++ (indent d ++ print (d + 1) f))))))
    print d (Expr.expand name) = codes "`" ++ name
    print d (Expr.let_in name val body) =
        spaced (codes "L" ∷ name ∷ print d val ∷ []) ++ (codes "\n" ++ (indent d ++ print d body))
    print d (Expr.import module_name sym _) = spaced (codes "I" ∷ module_name ∷ sym ∷ [])
    print d (Expr.string s) = quoted (escape_string s)
    print d (Expr.seq l r) = codes ". " ++ (print d l ++ (codes "\n" ++ (indent d ++ print d r)))
    print d (Expr.unpack e shape) = spaced (codes "ju" ∷ print d e ∷ quoted shape ∷ [])
    print d (Expr.map inst field func) =
        spaced (codes "map" ∷ print d inst ∷ quoted field ∷ print d func ∷ [])
    print d (Expr.money_op tok a b) =
        spaced (codes "%" ∷ format_token tok ∷ print d a ∷ print d b ∷ [])
    print d (Expr.money_str e) = spaced (codes "% str" ∷ print d e ∷ [])
    print d (Expr.time_op tok a b) =
        spaced (codes "tn" ∷ format_token tok ∷ print d a ∷ print d b ∷ [])
    print d Expr.time_now = codes "tn"
    print d Expr.time_nano = codes "tns"
    print d Expr.time_zone = codes "tz"
    print d (Expr.move e) = spaced (codes ">" ∷ print d e ∷ [])
    print d (Expr.borrow e) = spaced (codes "$" ∷ print d e ∷ [])
    print d (Expr.mut_borrow e) = spaced (codes "~" ∷ print d e ∷ [])
    print d (Expr.len e) = spaced (codes "sl" ∷ print d e ∷ [])
    print d (Expr.cat l r) = spaced (codes "sc" ∷ print d l ∷ print d r ∷ [])
    print d (Expr.sub s b l) = spaced (codes "ss" ∷ print d s ∷ print d b ∷ print d l ∷ [])
    print d (Expr.loc s p) = spaced (codes "sf" ∷ print d s ∷ print d p ∷ [])
    print d (Expr.reg s p) = spaced (codes "sr" ∷ print d s ∷ print d p ∷ [])
    print d (Expr.read h) = spaced (codes "(" ∷ print d h ∷ [])
    print d (Expr.write h s) = spaced (codes ")" ∷ print d h ∷ print d s ∷ [])
    print d (Expr.str e) = spaced (codes "str" ∷ print d e ∷ [])
    print d (Expr.split s b i) = spaced (codes "sp" ∷ print d s ∷ print d b ∷ print d i ∷ [])
    print d (Expr.time_get t i) = spaced (codes "tg" ∷ print d t ∷ print d i ∷ [])
    print d (Expr.time_set y m d₁ h mn s) =
        spaced (
          codes "ts" ∷ print d y ∷ print d m ∷ print d d₁ ∷ print d h ∷ print d mn ∷ print d s ∷ [])
    print d (Expr.env k) = spaced (codes "env" ∷ print d k ∷ [])
    print d (Expr.pack e) = spaced (codes "jp" ∷ print d e ∷ [])
    print d (Expr.metadata tag v t) = spaced (codes "M" ∷ print d tag ∷ print d v ∷ print d t ∷ [])
    print d (Expr.otel_emit t a₁ a₂ a₃) =
        spaced (codes "oe" ∷ print d t ∷ print d a₁ ∷ print d a₂ ∷ print d a₃ ∷ [])
    print d (Expr.filter i f) = spaced (codes "flt" ∷ print d i ∷ print d f ∷ [])
    print d (Expr.panic e) = spaced (codes "!" ∷ print d e ∷ [])
    print d (Expr.trap t f) = spaced (codes "^" ∷ print d t ∷ print d f ∷ [])
    print d (Expr.http_client m u b) =
        spaced (codes "http" ∷ print d m ∷ print d u ∷ print d b ∷ [])
    print d (Expr.http_server op arg) = spaced (codes "srv" ∷ print d op ∷ print d arg ∷ [])
    print d (Expr.http_header req n) = spaced (codes "hdr" ∷ print d req ∷ print d n ∷ [])
    print d (Expr.file_open p m) = spaced (codes "fo" ∷ print d p ∷ print d m ∷ [])

    -- Each argument behind a blank.
    pub print_args : ℕ → Exprs → Text
    print_args d Exprs.nil = []
    print_args d (Exprs.cons e es) = b' ' ∷ (print d e ++ print_args d es)
