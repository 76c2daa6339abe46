-- ===== src/Parser/Productions.antt =====
-- The productions of src/compiler/parser/mod.rs keep within what is left to read.
use llmlang.Prelude.{ℕ, zero, suc, codes, [], ◌==◌}
use llmlang.Token.{Token}
use llmlang.Ast.{Expr}
use llmlang.Parser.State.{Host, M}
use llmlang.Parser.Grammar.{
  misplaced_test, parse_many, parse_routes, parse_route, unary, binary, ternary,
}
use llmlang.Parser.Expr.{
  parse_let, parse_define, parse_shape, parse_new, parse_get, parse_set, parse_metadata,
  parse_money, parse_import, parse_apply, parse_unpack, parse_map, parse_time_now, parse_time_set,
  parse_otel, parse_router, parse_rest,
}
use llmlang.Parser.Progress.{
  Keeps, Keeps-pure, Keeps-fail, Keeps-peek, Keeps-bind, Keeps-if, Keeps-consume, Keeps-push_scope,
  Keeps-pop_scope, Keeps-add_variable, Keeps-drop_variable, Keeps-resolve_shape_name,
  Keeps-identifier, Keeps-string,
}
use llmlang.Parser.Loops.{
  module_name-Keeps, keeps, load-Keeps, imported-Keeps, exported-Keeps, count-Keeps, generate-Keeps,
  name-Keeps, params-Keeps, fields-Keeps,
}

module _ (host : Host) (b : ℕ) (sub : M Expr) (hs : Keeps b sub) where
  many-Keeps : (n : ℕ) → Keeps b (parse_many n sub)
  unfolding parse_many
  many-Keeps zero = Keeps-pure b []
  many-Keeps (suc n) = search (keeps, hs, many-Keeps n)

  route-Keeps : Keeps b (parse_route sub)
  unfolding parse_route
  route-Keeps = search (keeps, hs) depth 12

  routes-Keeps : (n : ℕ) → Keeps b (parse_routes n sub)
  unfolding parse_routes
  routes-Keeps zero = Keeps-pure b []
  routes-Keeps (suc n) =
      Keeps-bind b _ _ (route-Keeps) λ _. Keeps-bind b _ _ (routes-Keeps n) λ _. search keeps

  unary-Keeps : (f : Expr → Expr) → Keeps b (unary sub f)
  unfolding unary
  unary-Keeps f = search (keeps, hs)

  binary-Keeps : (f : Expr → Expr → Expr) → Keeps b (binary sub f)
  unfolding binary
  binary-Keeps f = search (keeps, hs) depth 8

  ternary-Keeps : (f : Expr → Expr → Expr → Expr) → Keeps b (ternary sub f)
  unfolding ternary
  ternary-Keeps f = search (keeps, hs) depth 10

  let-Keeps : Keeps b (parse_let host sub)
  unfolding parse_let
  let-Keeps = Keeps-bind b _ _ (Keeps-identifier b host) λ name. Keeps-bind b _ _ (hs) λ val.
      Keeps-bind b _ _ (Keeps-add_variable b name) λ _.
        Keeps-bind b _ _ (hs) λ body. Keeps-bind b _ _ (Keeps-drop_variable b) λ _. search keeps

  new-Keeps : Keeps b (parse_new host sub)
  unfolding parse_new
  new-Keeps = Keeps-bind b _ _ (Keeps-identifier b host) λ name.
      Keeps-bind b _ _ (Keeps-resolve_shape_name b name)
        λ _. Keeps-bind b _ _ (hs) λ _. search keeps

  get-Keeps : Keeps b (parse_get host sub)
  unfolding parse_get
  get-Keeps =
      Keeps-bind b _ _ (hs)
        λ _. Keeps-bind b _ _ (Keeps-identifier b host) λ _. Keeps-bind b _ _ (hs) λ _. search keeps

  set-Keeps : Keeps b (parse_set host sub)
  unfolding parse_set
  set-Keeps = Keeps-bind b _ _ (hs) λ _.
      Keeps-bind b _ _ (Keeps-identifier b host)
        λ _. Keeps-bind b _ _ (hs) λ _. Keeps-bind b _ _ (hs) λ _. search keeps

  metadata-Keeps : Keeps b (parse_metadata host sub)
  unfolding parse_metadata
  metadata-Keeps = Keeps-bind b _ _ (hs) λ tag. Keeps-bind b _ _ (hs) λ _.
      Keeps-bind b _ _ (hs) λ target.
        Keeps-if b (misplaced_test tag target) _ _ (Keeps-fail b Expr (codes "E019")) (search keeps)

  money-Keeps : (t : Token) → Keeps b (parse_money host sub t)
  unfolding parse_money
  money-Keeps Token.str = search (keeps, unary-Keeps)
  money-Keeps Token.add = search (keeps, binary-Keeps)
  money-Keeps Token.sub = search (keeps, binary-Keeps)
  money-Keeps Token.mul = search (keeps, binary-Keeps)
  money-Keeps Token.div = search (keeps, binary-Keeps)
  money-Keeps (Token.integer i) = search keeps
  money-Keeps (Token.float f) = search keeps
  money-Keeps _ = Keeps-fail b Expr (codes "E002")

  import-Keeps : Keeps b (parse_import host sub)
  unfolding parse_import
  import-Keeps =
      search (keeps, module_name-Keeps host b, load-Keeps host b, imported-Keeps host b) depth 14

  apply-Keeps : (n : ℕ) → Keeps b (parse_apply host sub n)
  unfolding parse_apply
  apply-Keeps n = Keeps-bind b _ _ (hs) λ _. Keeps-bind b _ _ (many-Keeps n) λ _. search keeps

  unpack-Keeps : Keeps b (parse_unpack host sub)
  unfolding parse_unpack
  unpack-Keeps = Keeps-bind b _ _ (hs) λ _.
      Keeps-bind b _ _ (Keeps-string b host)
        λ name. Keeps-bind b _ _ (Keeps-resolve_shape_name b name) λ _. search keeps

  map-Keeps : Keeps b (parse_map host sub)
  unfolding parse_map
  map-Keeps =
      Keeps-bind b _ _ (hs)
        λ _. Keeps-bind b _ _ (Keeps-string b host) λ _. Keeps-bind b _ _ (hs) λ _. search keeps

  time_now-Keeps : (t : Token) → Keeps b (parse_time_now host sub t)
  unfolding parse_time_now
  time_now-Keeps t = search (keeps, binary-Keeps)

  time_set-Keeps : Keeps b (parse_time_set host sub)
  unfolding parse_time_set
  time_set-Keeps = search (keeps, hs) depth 18

  otel-Keeps : Keeps b (parse_otel host sub)
  unfolding parse_otel
  otel-Keeps = search (keeps, hs) depth 14

  router-Keeps : Keeps b (parse_router host sub)
  unfolding parse_router
  router-Keeps = Keeps-bind b _ _ (hs) λ port. Keeps-bind b _ _ (Keeps-consume b host) λ t.
      Keeps-bind b _ _ (count-Keeps host b t) λ n.
        Keeps-bind b _ _ (routes-Keeps n)
          λ routes. Keeps-bind b _ _ (hs) λ fallback. generate-Keeps host b port fallback routes

  define-Keeps : Keeps b (parse_define host sub b)
  unfolding parse_define
  define-Keeps = Keeps-bind b _ _ (Keeps-identifier b host) λ name.
      Keeps-bind b _ _ (Keeps-push_scope b) λ _.
        Keeps-bind b _ _ (params-Keeps host b)
          λ _. Keeps-bind b _ _ hs λ _. Keeps-bind b _ _ (Keeps-pop_scope b) λ _. search keeps

  shape-Keeps : Keeps b (parse_shape host sub b)
  unfolding parse_shape
  shape-Keeps =
      Keeps-bind b _ _ (Keeps-identifier b host)
        λ name. Keeps-bind b _ _ (fields-Keeps host b) λ _. search keeps

  pub rest-Keeps : (t : Token) → Keeps b (parse_rest host sub b t)
  unfolding parse_rest
  rest-Keeps (Token.integer i) = Keeps-pure b _
  rest-Keeps (Token.float f) = Keeps-pure b _
  rest-Keeps (Token.identifier s) = name-Keeps host b s
  rest-Keeps (Token.string s) = Keeps-pure b _
  rest-Keeps Token.move = unary-Keeps _
  rest-Keeps Token.borrow = unary-Keeps _
  rest-Keeps Token.mut_borrow = unary-Keeps _
  rest-Keeps Token.len = unary-Keeps _
  rest-Keeps Token.str_sub = ternary-Keeps _
  rest-Keeps Token.cat = binary-Keeps _
  rest-Keeps Token.let_in = let-Keeps
  rest-Keeps Token.define = define-Keeps
  rest-Keeps Token.shape = shape-Keeps
  rest-Keeps Token.new = new-Keeps
  rest-Keeps Token.get = get-Keeps
  rest-Keeps Token.set = set-Keeps
  rest-Keeps Token.question = ternary-Keeps _
  rest-Keeps Token.bang = Keeps-bind b _ _ (Keeps-identifier b host) λ name. search keeps
  rest-Keeps Token.metadata = metadata-Keeps
  rest-Keeps Token.export = Keeps-bind b _ _ hs (exported-Keeps host b)
  rest-Keeps Token.money = Keeps-bind b _ _ (Keeps-peek b) money-Keeps
  rest-Keeps Token.import = import-Keeps
  rest-Keeps (Token.apply arity) = apply-Keeps arity
  rest-Keeps (Token.de_bruijn i) = Keeps-pure b _
  rest-Keeps Token.loc = binary-Keeps _
  rest-Keeps Token.reg = binary-Keeps _
  rest-Keeps Token.read = unary-Keeps _
  rest-Keeps Token.write = binary-Keeps _
  rest-Keeps Token.str = unary-Keeps _
  rest-Keeps Token.split = ternary-Keeps _
  rest-Keeps (Token.pack arity) = Keeps-if b (arity == 1) _ _ (unary-Keeps _) unpack-Keeps
  rest-Keeps (Token.otel_emit _) = otel-Keeps
  rest-Keeps Token.map = map-Keeps
  rest-Keeps Token.filter = binary-Keeps _
  rest-Keeps Token.panic = unary-Keeps _
  rest-Keeps Token.trap = binary-Keeps _
  rest-Keeps Token.time_now = Keeps-bind b _ _ (Keeps-peek b) time_now-Keeps
  rest-Keeps Token.time_zone = Keeps-pure b _
  rest-Keeps Token.time_nano = Keeps-pure b _
  rest-Keeps Token.time_get = binary-Keeps _
  rest-Keeps Token.time_set = time_set-Keeps
  rest-Keeps Token.env = unary-Keeps _
  rest-Keeps Token.file_open = binary-Keeps _
  rest-Keeps Token.http_client = ternary-Keeps _
  rest-Keeps Token.http_server = binary-Keeps _
  rest-Keeps Token.http_header = binary-Keeps _
  rest-Keeps Token.router = router-Keeps
  rest-Keeps Token.eof = Keeps-fail b Expr (codes "E001")
  rest-Keeps _ = binary-Keeps _
