-- ===== src/Analysis/Fingerprint.antt =====
-- src/compiler/analysis/mod.rs: `structural_fingerprint`. `{:?}` of an operator is its name in the
-- code; the parser builds a binary operation with no other token, and those are written as nothing.
use llmlang.Prelude.{ℕ, ◌+◌, Text, codes, List, [], ◌∷◌, ◌++◌, print_decimal}
use llmlang.Token.{Token}
use llmlang.Prelude.Int.{pos, negsuc}
use llmlang.Ast.{Expr, Exprs}

-- A call that mutates the text written so far.
abbrev pub Write : Type 0
Write = Text → Text

infixl 5 ◌>>◌
abbrev pub ◌>>◌ : Write → Write → Write
p >> q = λ s. q (p s)

unfoldable pub push_str : Text → Write
push_str t s = s ++ t

-- `{:?}` of a field
abbrev in_brackets : Text → Text → Text
in_brackets name field = name ++ (b'(' ∷ (field ++ codes ")"))

abbrev quoted : Text → Text
quoted t = b'"' ∷ (t ++ codes "\"")

-- `{:?}` of a token. The parser makes no operation with a token that holds a text or a float: how `{:?}`
-- escapes a text, and rounds a float, is not written out.
unfoldable pub debug_name : Token → Text
unfolding print_decimal
debug_name Token.add = codes "Add"
debug_name Token.sub = codes "Sub"
debug_name Token.mul = codes "Mul"
debug_name Token.div = codes "Div"
debug_name Token.move = codes "Move"
debug_name Token.borrow = codes "Borrow"
debug_name Token.mut_borrow = codes "MutBorrow"
debug_name Token.define = codes "Define"
debug_name Token.shape = codes "Shape"
debug_name Token.question = codes "Question"
debug_name Token.bang = codes "Bang"
debug_name Token.new = codes "New"
debug_name Token.get = codes "Get"
debug_name Token.set = codes "Set"
debug_name Token.export = codes "Export"
debug_name Token.let_in = codes "Let"
debug_name Token.import = codes "Import"
debug_name Token.eq = codes "Eq"
debug_name Token.lt = codes "Lt"
debug_name Token.gt = codes "Gt"
debug_name Token.dot = codes "Dot"
debug_name Token.bit_and = codes "BitAnd"
debug_name Token.bit_or = codes "BitOr"
debug_name Token.bit_xor = codes "BitXor"
debug_name Token.len = codes "Len"
debug_name Token.cat = codes "Cat"
debug_name Token.str_sub = codes "StrSub"
debug_name Token.loc = codes "Loc"
debug_name Token.reg = codes "Reg"
debug_name Token.read = codes "Read"
debug_name Token.write = codes "Write"
debug_name Token.str = codes "Str"
debug_name Token.split = codes "Split"
debug_name Token.map = codes "Map"
debug_name Token.filter = codes "Filter"
debug_name Token.money = codes "Money"
debug_name Token.panic = codes "Panic"
debug_name Token.trap = codes "Trap"
debug_name Token.time_now = codes "TimeNow"
debug_name Token.time_nano = codes "TimeNano"
debug_name Token.time_zone = codes "TimeZone"
debug_name Token.time_get = codes "TimeGet"
debug_name Token.time_set = codes "TimeSet"
debug_name Token.metadata = codes "Metadata"
debug_name Token.env = codes "Env"
debug_name Token.http_client = codes "HttpClient"
debug_name Token.http_server = codes "HttpServer"
debug_name Token.file_open = codes "FileOpen"
debug_name Token.router = codes "Router"
debug_name Token.http_header = codes "HttpHeader"
debug_name Token.eof = codes "EOF"
debug_name (Token.apply n) = in_brackets (codes "Apply") (print_decimal n)
debug_name (Token.de_bruijn n) = in_brackets (codes "DeBruijn") (print_decimal n)
debug_name (Token.otel_emit n) = in_brackets (codes "OtelEmit") (print_decimal n)
debug_name (Token.pack n) = in_brackets (codes "Pack") (print_decimal n)
debug_name (Token.string t) = in_brackets (codes "String") (quoted t)
debug_name (Token.identifier t) = in_brackets (codes "Identifier") (quoted t)
debug_name (Token.integer (pos n)) = in_brackets (codes "Integer") (print_decimal n)
debug_name (Token.integer (negsuc n)) = in_brackets (codes "Integer") (b'-' ∷ print_decimal (n + 1))
debug_name (Token.float f) = in_brackets (codes "Float") (f.whole ++ (b'.' ∷ f.fraction))

-- One mark for each item of a list.
unfoldable pub push_each : {A : Type 0} → Text → List A → Write
unfolding push_str
push_each mark [] = λ s. s
push_each mark (_ ∷ xs) = do push_str mark; push_each mark xs

abbrev pub length_args : Exprs → ℕ
length_args Exprs.nil = 0
length_args (Exprs.cons _ es) = 1 + length_args es

unfoldable mutual
  unfolding push_str debug_name push_each print_decimal

  pub collect_fingerprint : Expr → Write
  collect_fingerprint (Expr.integer _) = push_str (codes "i")
  collect_fingerprint (Expr.float _) = push_str (codes "f")
  collect_fingerprint (Expr.string _) = push_str (codes "s")
  collect_fingerprint (Expr.identifier _) = push_str (codes "v")
  collect_fingerprint (Expr.de_bruijn i) = push_str (codes "^" ++ print_decimal i)
  collect_fingerprint (Expr.expand _) = push_str (codes "!")
  collect_fingerprint (Expr.binary_op op l r) = do
    push_str (debug_name op)
    collect_fingerprint l
    collect_fingerprint r
  collect_fingerprint (Expr.move e) = do push_str (codes ">"); collect_fingerprint e
  collect_fingerprint (Expr.borrow e) = do push_str (codes "$"); collect_fingerprint e
  collect_fingerprint (Expr.mut_borrow e) = do push_str (codes "~"); collect_fingerprint e
  collect_fingerprint (Expr.if_else c t f) = do
    push_str (codes "?")
    collect_fingerprint c
    collect_fingerprint t
    collect_fingerprint f
  collect_fingerprint (Expr.apply _ args) = do
    push_str (codes "@" ++ print_decimal (length_args args))
    collect_args args
  collect_fingerprint (Expr.let_in _ v b) = do
    push_str (codes "L")
    collect_fingerprint v
    collect_fingerprint b
  collect_fingerprint (Expr.import _ _ _) = push_str (codes "I")
  collect_fingerprint (Expr.seq l r) = do
    push_str (codes ".")
    collect_fingerprint l
    collect_fingerprint r
  collect_fingerprint (Expr.pack e) = do push_str (codes "jp"); collect_fingerprint e
  collect_fingerprint (Expr.otel_emit t a₁ a₂ a₃) = do
    push_str (codes "oe")
    collect_fingerprint t
    collect_fingerprint a₁
    collect_fingerprint a₂
    collect_fingerprint a₃
  collect_fingerprint (Expr.unpack e shape) = do
    push_str (codes "ju")
    push_str shape
    collect_fingerprint e
  collect_fingerprint (Expr.map e _ f) = do
    push_str (codes "map")
    collect_fingerprint e
    collect_fingerprint f
  collect_fingerprint (Expr.filter e f) = do
    push_str (codes "flt")
    collect_fingerprint e
    collect_fingerprint f
  collect_fingerprint (Expr.shape _ fields _) = do
    push_str (codes "#")
    push_each (codes "t") fields
  collect_fingerprint (Expr.new _ count) = do push_str (codes "N"); collect_fingerprint count
  collect_fingerprint (Expr.get i _ idx) = do
    push_str (codes "G")
    collect_fingerprint i
    collect_fingerprint idx
  collect_fingerprint (Expr.set i _ idx v) = do
    push_str (codes "S")
    collect_fingerprint i
    collect_fingerprint idx
    collect_fingerprint v
  collect_fingerprint (Expr.define _ params body _) = do
    push_str (codes ":")
    push_each (codes "p") params
    collect_fingerprint body
  collect_fingerprint (Expr.http_client m u b) = do
    push_str (codes "http")
    collect_fingerprint m
    collect_fingerprint u
    collect_fingerprint b
  collect_fingerprint (Expr.http_server op arg) = do
    push_str (codes "srv")
    collect_fingerprint op
    collect_fingerprint arg
  collect_fingerprint (Expr.http_header req name) = do
    push_str (codes "hdr")
    collect_fingerprint req
    collect_fingerprint name
  collect_fingerprint _ = push_str (codes "?")

  pub collect_args : Exprs → Write
  collect_args Exprs.nil = λ s. s
  collect_args (Exprs.cons e es) = do collect_fingerprint e; collect_args es

unfoldable pub structural_fingerprint : Expr → Text
unfolding collect_fingerprint
structural_fingerprint e = collect_fingerprint e []
