-- ===== src/Analysis/Pointers.antt =====
-- src/compiler/analysis/mod.rs: `returns_ptr_with_stack`. The stack is kept with its top first.
use llmlang.Prelude.{
  ℕ, zero, suc, ◌-◌, Bool, true, false, ◌||◌, Text, codes, text_eq, List, [], ◌∷◌, none, some,
  if◌then◌else◌, length, get_elem?, any, leb, lookup,
}
use llmlang.Prelude.Int.{pos}
use llmlang.Ast.{Expr}

abbrev pub drop : ℕ → Text → Text
drop zero t = t
drop (suc n) [] = []
drop (suc n) (_ ∷ t) = drop n t

unfoldable pub ends_with : Text → Text → Bool
unfolding text_eq
ends_with t end =
    if leb (length end) (length t) then text_eq (drop (length t - length end) t) end else false

abbrev pub ptr_names : List Text
ptr_names =
    codes "http_get"
    ∷ codes "http_post"
    ∷ codes "get"
    ∷ codes "post"
    ∷ codes "json_parse"
    ∷ codes "parse"
    ∷ codes "json_stringify"
    ∷ codes "stringify"
    ∷ codes "json_get_str"
    ∷ codes "get_str"
    ∷ codes "sign"
    ∷ codes "encrypt"
    ∷ codes "decrypt"
    ∷ codes "unwrap"
    ∷ codes "serve"
    ∷ codes "https_serve"
    ∷ codes "accept"
    ∷ codes "decode"
    ∷ codes "encode_b64url"
    ∷ codes "decode_b64url"
    ∷ codes "greet"
    ∷ codes "connect"
    ∷ codes "connect_binding"
    ∷ codes "query"
    ∷ codes "error"
    ∷ codes "db_connect"
    ∷ codes "db_connect_binding"
    ∷ codes "db_query"
    ∷ codes "db_error"
    ∷ []

abbrev pub ptr_endings : List Text
ptr_endings =
    codes "_get"
    ∷ codes "_post"
    ∷ codes "_parse"
    ∷ codes "_stringify"
    ∷ codes "_get_str"
    ∷ codes "_sign"
    ∷ codes "_encrypt"
    ∷ codes "_decrypt"
    ∷ codes "_unwrap"
    ∷ codes "_serve"
    ∷ codes "_https_serve"
    ∷ codes "_accept"
    ∷ codes "_decode"
    ∷ codes "_encode_b64url"
    ∷ codes "_decode_b64url"
    ∷ codes "_greet"
    ∷ codes "_connect"
    ∷ codes "_connect_binding"
    ∷ codes "_query"
    ∷ codes "_error"
    ∷ []

unfoldable pub is_ptr_fn : Text → Bool
unfolding text_eq ends_with
is_ptr_fn name = any (text_eq name) ptr_names || any (ends_with name) ptr_endings

-- What `fn_returns_ptr` tells of a function that is named.
unfoldable pub callee_returns_ptr : Expr → List (Text × Bool) → Bool
unfolding is_ptr_fn lookup
callee_returns_ptr (Expr.identifier name) fns =
    if is_ptr_fn name then true else elim (lookup name fns) [ none ↦ false | some ret ↦ ret ]
callee_returns_ptr _ fns = false

-- The operations 0 to 3 of the server.
abbrev pub is_ptr_op : Expr → Bool
is_ptr_op (Expr.integer (pos n)) = leb n 3
is_ptr_op _ = false

unfoldable pub returns_ptr_with_stack : Expr → List Bool → List (Text × Bool) → Bool
unfolding callee_returns_ptr
returns_ptr_with_stack (Expr.string _) stack fns = true
returns_ptr_with_stack (Expr.new _ _) stack fns = true
returns_ptr_with_stack (Expr.unpack _ _) stack fns = true
returns_ptr_with_stack (Expr.map _ _ _) stack fns = true
returns_ptr_with_stack (Expr.filter _ _) stack fns = true
returns_ptr_with_stack (Expr.cat _ _) stack fns = true
returns_ptr_with_stack (Expr.sub _ _ _) stack fns = true
returns_ptr_with_stack (Expr.read _) stack fns = true
returns_ptr_with_stack (Expr.str _) stack fns = true
returns_ptr_with_stack (Expr.split _ _ _) stack fns = true
returns_ptr_with_stack (Expr.pack _) stack fns = true
returns_ptr_with_stack (Expr.otel_emit _ _ _ _) stack fns = true
returns_ptr_with_stack (Expr.env _) stack fns = true
returns_ptr_with_stack (Expr.money_str _) stack fns = true
returns_ptr_with_stack Expr.time_zone stack fns = true
returns_ptr_with_stack (Expr.file_open _ _) stack fns = true
returns_ptr_with_stack (Expr.metadata _ _ t) stack fns = returns_ptr_with_stack t stack fns
returns_ptr_with_stack (Expr.http_client _ _ _) stack fns = true
returns_ptr_with_stack (Expr.http_server op _) stack fns = is_ptr_op op
returns_ptr_with_stack (Expr.http_header _ _) stack fns = true
returns_ptr_with_stack (Expr.let_in _ v b) stack fns =
    returns_ptr_with_stack b (returns_ptr_with_stack v stack fns ∷ stack) fns
returns_ptr_with_stack (Expr.seq _ b) stack fns = returns_ptr_with_stack b stack fns
returns_ptr_with_stack (Expr.move e) stack fns = returns_ptr_with_stack e stack fns
returns_ptr_with_stack (Expr.borrow e) stack fns = returns_ptr_with_stack e stack fns
returns_ptr_with_stack (Expr.mut_borrow e) stack fns = returns_ptr_with_stack e stack fns
returns_ptr_with_stack (Expr.trap t f) stack fns =
    returns_ptr_with_stack t stack fns || returns_ptr_with_stack f stack fns
returns_ptr_with_stack (Expr.if_else _ t f) stack fns =
    returns_ptr_with_stack t stack fns || returns_ptr_with_stack f stack fns
returns_ptr_with_stack (Expr.set _ _ _ v) stack fns = returns_ptr_with_stack v stack fns
returns_ptr_with_stack (Expr.de_bruijn idx) stack fns = elim (get_elem? stack idx) [
  | none ↦ false
  | some b ↦ b
]
returns_ptr_with_stack (Expr.apply f _) stack fns = callee_returns_ptr f fns
returns_ptr_with_stack _ stack fns = false
