-- ===== src/Parser/Grammar.antt =====
-- src/compiler/parser/mod.rs: `parse_expr`, `parse_router` and `parse_module`. The calls of
-- `parse_expr` within itself are the argument `sub`. Each call takes a unit of fuel, and so does each
-- round of a loop over identifiers or over the expressions of a module: one unit more than there are
-- characters and tokens in hand is enough.
use llmlang.Prelude.{
  ℕ, zero, suc, ◌*◌, Bool, true, false, not, Text, codes, text_eq, List, [], ◌∷◌, ◌++◌, Option,
  none, some, if◌then◌else◌, length,
}
use llmlang.Prelude.Int.{ℤ, pos, negsuc, to_i64, bits64}
use llmlang.Error.{ok, err, Outcome, and_then}
use llmlang.Token.{Token}
use llmlang.Ast.{Param, Expr}
use llmlang.Parser.State.{Host, M, pure, ◌>>=◌, ◌>>◌, fail, peek, modify, add_variable, consume}
use llmlang.Parser.Signature.{Signature, read_signature, find_named}
use llmlang.Parser.Router.{Route, dispatch_tree, loop_def, loop_name_of, entry_expr}

-- `val * k` on `i64`, which wraps in a release build.
unfoldable pub wrapping_mul : ℤ → ℕ → ℤ
unfolding to_i64 bits64
wrapping_mul a k = to_i64 (bits64 a * k)

abbrev pub as_identifier : Token → Option Text
as_identifier (Token.identifier s) = some s
as_identifier _ = none

abbrev pub is_bang : Token → Bool
is_bang Token.bang = true
is_bang _ = false

unfoldable pub strip_metadata : Expr → Expr
strip_metadata (Expr.metadata _ _ t) = strip_metadata t
strip_metadata e = e

abbrev pub is_define : Expr → Bool
is_define (Expr.define _ _ _ _) = true
is_define _ = false

-- Metadata with the tag "test" stands on a definition.
unfoldable pub misplaced_test : Expr → Expr → Bool
unfolding strip_metadata text_eq
misplaced_test (Expr.string tag_str) target =
    if text_eq tag_str (codes "test") then not (is_define (strip_metadata target)) else false
misplaced_test _ target = false

unfoldable pub exported : Expr → M Expr
exported (Expr.define name params body _) = pure (Expr.define name params body true)
exported (Expr.shape name fields _) = pure (Expr.shape name fields true)
exported _ = fail (codes "E015")

unfoldable pub route_count : Token → M ℕ
route_count (Token.integer (pos n)) = pure n
route_count (Token.integer (negsuc n)) = pure 0
route_count _ = fail (codes "E001")

unfoldable pub module_name_of : Token → M Text
module_name_of (Token.identifier s) = pure s
module_name_of Token.http_client = pure (codes "http")
module_name_of _ = fail (codes "E002")

-- What is imported under this name: a shape first, then a function.
unfoldable pub imported : Text → Text → Signature → M Expr
unfolding find_named
imported module_name symbol sig = elim (find_named symbol sig.shapes) [
  | some fields ↦ do
    modify (λ p. record p { imported_shapes = p.imported_shapes ++ (symbol, module_name) ∷ [] })
    pure (Expr.shape (module_name ++ (codes "_" ++ symbol)) fields false)
  | none ↦ elim (find_named symbol sig.funcs) [
    | some arity ↦ pure (Expr.import module_name symbol arity)
    | none ↦ fail (codes "E018")
  ]
]

-- The state behind the routes: the loop is generated, and the entry expression takes its place.
unfoldable pub generate : Expr → Expr → List Route → M Expr
unfolding dispatch_tree loop_def loop_name_of entry_expr
generate port_expr fallback routes p =
    let loop_name = loop_name_of (length p.generated_funcs) in
    elim (dispatch_tree loop_name fallback routes) [
      | none ↦ fail (codes "E001") p
      | some tree ↦ Outcome.ok (
        entry_expr loop_name port_expr,
        record p { generated_funcs = p.generated_funcs ++ loop_def loop_name tree ∷ [] },
      )
    ]

module _ (host : Host) where
  unfoldable pub load_signature : Text → M Signature
  unfolding read_signature
  load_signature module_name p = elim (host.resolve module_name p.import_paths p.filename) [
    | ok content ↦ Outcome.ok (read_signature content, p)
    | err code ↦ fail code p
  ]

  unfoldable pub parse_param : Text → M Param
  parse_param name = do
    consume host
    t ← peek
    expand ← if is_bang t then (consume host >> pure true) else pure false
    add_variable name
    pure (record { name = name; expand = expand })

  unfoldable pub parse_params : ℕ → M (List Param)
  parse_params zero p = Outcome.out_of_fuel
  parse_params (suc fuel) p = elim (as_identifier p.current_token) [
    | none ↦ pure [] p
    | some name ↦
        and_then (parse_param name p)
          λ (param, q). and_then (parse_params fuel q) λ (params, r). Outcome.ok (param ∷ params, r)
  ]

  unfoldable pub parse_fields : ℕ → M (List Text)
  parse_fields zero p = Outcome.out_of_fuel
  parse_fields (suc fuel) p = elim (as_identifier p.current_token) [
    | none ↦ pure [] p
    | some field ↦
        and_then (consume host p)
          λ (_, q). and_then (parse_fields fuel q) λ (fields, r). Outcome.ok (field ∷ fields, r)
  ]

unfoldable pub parse_many : ℕ → M Expr → M (List Expr)
parse_many zero sub = pure []
parse_many (suc n) sub = do e ← sub; es ← parse_many n sub; pure (e ∷ es)

unfoldable pub parse_route : M Expr → M Route
parse_route sub = do
  method ← sub
  path ← sub
  handler ← sub
  pure (record { method = method; path = path; handler = handler })

unfoldable pub parse_routes : ℕ → M Expr → M (List Route)
parse_routes zero sub = pure []
parse_routes (suc n) sub = do r ← parse_route sub; rs ← parse_routes n sub; pure (r ∷ rs)

-- The operands of a token, behind it.
unfoldable pub unary : M Expr → (Expr → Expr) → M Expr
unary sub build = do a ← sub; pure (build a)

unfoldable pub binary : M Expr → (Expr → Expr → Expr) → M Expr
binary sub build = do a ← sub; b ← sub; pure (build a b)

unfoldable pub ternary : M Expr → (Expr → Expr → Expr → Expr) → M Expr
ternary sub build = do a ← sub; b ← sub; c ← sub; pure (build a b c)
