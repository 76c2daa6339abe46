-- ===== src/Parser/Expr.antt =====
-- src/compiler/parser/mod.rs: `parse_expr` by its current token, and `parse_module`.
use llmlang.Prelude.{
  ℕ, zero, suc, ◌+◌, Bool, true, false, Text, codes, List, [], ◌∷◌, ◌++◌, none, some, if◌then◌else◌,
  length, ◌==◌,
}
use llmlang.Error.{Outcome, and_then}
use llmlang.Token.{Token}
use llmlang.Ast.{Expr, to_exprs}
use llmlang.Lexer.{new_lexer}
use llmlang.Parser.State.{
  Host, Parser, M, pure, ◌>>=◌, ◌>>◌, fail, peek, push_scope, pop_scope, add_variable,
  drop_variable, resolve_variable, resolve_shape_name, consume, expect_identifier, expect_string,
  new_parser,
}
use llmlang.Parser.Grammar.{
  wrapping_mul, misplaced_test, exported, route_count, module_name_of, imported, generate,
  load_signature, parse_params, parse_fields, parse_many, parse_routes, unary, binary, ternary,
}

-- An identifier in scope is read as its index.
unfoldable pub name_expr : Text → M Expr
name_expr s p = elim (resolve_variable p.scopes s) [
  | some idx ↦ Outcome.ok (Expr.de_bruijn idx, p)
  | none ↦ Outcome.ok (Expr.identifier s, p)
]

abbrev pub is_offset : Token → Bool
is_offset Token.add = true
is_offset Token.sub = true
is_offset _ = false

module _ (host : Host) (sub : M Expr) where
  unfoldable pub parse_let : M Expr
  parse_let = do
    name ← expect_identifier host
    val ← sub
    add_variable name
    body ← sub
    drop_variable
    pure (Expr.let_in name val body)

  unfoldable pub parse_define : ℕ → M Expr
  parse_define fuel = do
    name ← expect_identifier host
    push_scope
    params ← parse_params host fuel
    body ← sub
    pop_scope
    pure (Expr.define name params body false)

  unfoldable pub parse_shape : ℕ → M Expr
  parse_shape fuel = do
    name ← expect_identifier host
    fields ← parse_fields host fuel
    pure (Expr.shape name fields false)

  unfoldable pub parse_new : M Expr
  parse_new = do
    name ← expect_identifier host
    resolved_name ← resolve_shape_name name
    count ← sub
    pure (Expr.new resolved_name count)

  unfoldable pub parse_get : M Expr
  parse_get = do
    inst ← sub
    field ← expect_identifier host
    idx ← sub
    pure (Expr.get inst field idx)

  unfoldable pub parse_set : M Expr
  parse_set = do
    inst ← sub
    field ← expect_identifier host
    idx ← sub
    val ← sub
    pure (Expr.set inst field idx val)

  unfoldable pub parse_metadata : M Expr
  parse_metadata = do
    tag ← sub
    val ← sub
    target ← sub
    if misplaced_test tag target then fail (codes "E019") else pure (Expr.metadata tag val target)

  -- The token behind `%`.
  unfoldable pub parse_money : Token → M Expr
  parse_money Token.str = do consume host; unary sub Expr.money_str
  parse_money Token.add = do consume host; binary sub (Expr.money_op Token.add)
  parse_money Token.sub = do consume host; binary sub (Expr.money_op Token.sub)
  parse_money Token.mul = do consume host; binary sub (Expr.money_op Token.mul)
  parse_money Token.div = do consume host; binary sub (Expr.money_op Token.div)
  parse_money (Token.integer i) = do consume host; pure (Expr.integer (wrapping_mul i 10000))
  parse_money (Token.float f) = do consume host; pure (Expr.integer (host.to_money f))
  parse_money _ = fail (codes "E002")

  unfoldable pub parse_import : M Expr
  parse_import = do
    t ← consume host
    module_name ← module_name_of t
    symbol ← expect_identifier host
    sig ← load_signature host module_name
    imported module_name symbol sig

  unfoldable pub parse_apply : ℕ → M Expr
  parse_apply arity = do
    func ← sub
    args ← parse_many arity sub
    pure (Expr.apply func (to_exprs args))

  unfoldable pub parse_unpack : M Expr
  parse_unpack = do
    s ← sub
    shape_name ← expect_string host
    resolved_name ← resolve_shape_name shape_name
    pure (Expr.unpack s resolved_name)

  unfoldable pub parse_map : M Expr
  parse_map = do inst ← sub; field ← expect_string host; func ← sub; pure (Expr.map inst field func)

  unfoldable pub parse_time_now : Token → M Expr
  parse_time_now op =
      if is_offset op then (do consume host; binary sub (Expr.time_op op)) else pure Expr.time_now

  unfoldable pub parse_time_set : M Expr
  parse_time_set = do
    y ← sub
    m ← sub
    d ← sub
    h ← sub
    mn ← sub
    sc ← sub
    pure (Expr.time_set y m d h mn sc)

  unfoldable pub parse_otel : M Expr
  parse_otel = do t ← sub; a₁ ← sub; a₂ ← sub; a₃ ← sub; pure (Expr.otel_emit t a₁ a₂ a₃)

  unfoldable pub parse_router : M Expr
  parse_router = do
    port_expr ← sub
    t ← consume host
    num_routes ← route_count t
    routes ← parse_routes num_routes sub
    fallback ← sub
    generate port_expr fallback routes

  -- What follows the current token, once it has been consumed.
  unfoldable pub parse_rest : ℕ → Token → M Expr
  parse_rest fuel (Token.integer i) = pure (Expr.integer i)
  parse_rest fuel (Token.float f) = pure (Expr.float f)
  parse_rest fuel (Token.identifier s) = name_expr s
  parse_rest fuel (Token.string s) = pure (Expr.string s)
  parse_rest fuel Token.move = unary sub Expr.move
  parse_rest fuel Token.borrow = unary sub Expr.borrow
  parse_rest fuel Token.mut_borrow = unary sub Expr.mut_borrow
  parse_rest fuel Token.len = unary sub Expr.len
  parse_rest fuel Token.str_sub = ternary sub Expr.sub
  parse_rest fuel Token.cat = binary sub Expr.cat
  parse_rest fuel Token.let_in = parse_let
  parse_rest fuel Token.define = parse_define fuel
  parse_rest fuel Token.shape = parse_shape fuel
  parse_rest fuel Token.new = parse_new
  parse_rest fuel Token.get = parse_get
  parse_rest fuel Token.set = parse_set
  parse_rest fuel Token.question = ternary sub Expr.if_else
  parse_rest fuel Token.bang = do name ← expect_identifier host; pure (Expr.expand name)
  parse_rest fuel Token.metadata = parse_metadata
  parse_rest fuel Token.export = do inner ← sub; exported inner
  parse_rest fuel Token.money = do t ← peek; parse_money t
  parse_rest fuel Token.import = parse_import
  parse_rest fuel (Token.apply arity) = parse_apply arity
  parse_rest fuel (Token.de_bruijn index) = pure (Expr.de_bruijn index)
  parse_rest fuel Token.loc = binary sub Expr.loc
  parse_rest fuel Token.reg = binary sub Expr.reg
  parse_rest fuel Token.read = unary sub Expr.read
  parse_rest fuel Token.write = binary sub Expr.write
  parse_rest fuel Token.str = unary sub Expr.str
  parse_rest fuel Token.split = ternary sub Expr.split
  parse_rest fuel (Token.pack arity) = if arity == 1 then unary sub Expr.pack else parse_unpack
  parse_rest fuel (Token.otel_emit _) = parse_otel
  parse_rest fuel Token.map = parse_map
  parse_rest fuel Token.filter = binary sub Expr.filter
  parse_rest fuel Token.panic = unary sub Expr.panic
  parse_rest fuel Token.trap = binary sub Expr.trap
  parse_rest fuel Token.time_now = do t ← peek; parse_time_now t
  parse_rest fuel Token.time_zone = pure Expr.time_zone
  parse_rest fuel Token.time_nano = pure Expr.time_nano
  parse_rest fuel Token.time_get = binary sub Expr.time_get
  parse_rest fuel Token.time_set = parse_time_set
  parse_rest fuel Token.env = unary sub Expr.env
  parse_rest fuel Token.file_open = binary sub Expr.file_open
  parse_rest fuel Token.http_client = ternary sub Expr.http_client
  parse_rest fuel Token.http_server = binary sub Expr.http_server
  parse_rest fuel Token.http_header = binary sub Expr.http_header
  parse_rest fuel Token.router = parse_router
  parse_rest fuel Token.dot = binary sub Expr.seq
  parse_rest fuel Token.add = binary sub (Expr.binary_op Token.add)
  parse_rest fuel Token.sub = binary sub (Expr.binary_op Token.sub)
  parse_rest fuel Token.mul = binary sub (Expr.binary_op Token.mul)
  parse_rest fuel Token.div = binary sub (Expr.binary_op Token.div)
  parse_rest fuel Token.eq = binary sub (Expr.binary_op Token.eq)
  parse_rest fuel Token.lt = binary sub (Expr.binary_op Token.lt)
  parse_rest fuel Token.gt = binary sub (Expr.binary_op Token.gt)
  parse_rest fuel Token.bit_and = binary sub (Expr.binary_op Token.bit_and)
  parse_rest fuel Token.bit_or = binary sub (Expr.binary_op Token.bit_or)
  parse_rest fuel Token.bit_xor = binary sub (Expr.binary_op Token.bit_xor)
  parse_rest fuel Token.eof = fail (codes "E001")

  -- The end of the input begins no expression, and is not consumed.
  unfoldable pub parse_token : ℕ → Token → M Expr
  parse_token fuel Token.eof = fail (codes "E001")
  parse_token fuel t = consume host >> parse_rest fuel t

module _ (host : Host) where
  unfoldable pub parse_expr : ℕ → M Expr
  parse_expr zero p = Outcome.out_of_fuel
  parse_expr (suc fuel) p = parse_token host (parse_expr fuel) fuel p.current_token p

abbrev pub is_eof : Token → Bool
is_eof Token.eof = true
is_eof _ = false

-- What is left to read: the characters, and the current token unless it is the end.
abbrev pub remaining : Parser → ℕ
remaining p = length p.lexer.input + (if is_eof p.current_token then 0 else 1)

-- The functions generated so far stand in front of an expression.
unfoldable pub drain : M (List Expr)
drain p = Outcome.ok (p.generated_funcs, record p { generated_funcs = [] })

module _ (host : Host) where
  unfoldable pub parse_all : ℕ → M (List Expr)
  parse_all zero p = Outcome.out_of_fuel
  parse_all (suc fuel) p = elim (is_eof p.current_token) [
    | true ↦ pure [] p
    | false ↦ and_then (parse_expr host (suc fuel) p) λ (expr, q).
        and_then (drain q) λ (generated, r).
          and_then (parse_all fuel r) λ (later, s). Outcome.ok (generated ++ (expr ∷ later), s)
  ]

  unfoldable pub parse_module : M (List Expr)
  parse_module p = parse_all (suc (remaining p)) p

  -- A source text, as `main` parses it.
  unfoldable pub parse_source : Text → Text → List Text → Outcome (List Expr × Parser)
  unfolding new_parser parse_module
  parse_source input filename import_paths =
      and_then (new_parser host (new_lexer input) filename)
        λ p. parse_module (record p { import_paths = import_paths })
