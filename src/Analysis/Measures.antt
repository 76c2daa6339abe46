-- ===== src/Analysis/Measures.antt =====
-- src/compiler/analysis/mod.rs: `is_pure` and `complexity`. A complexity is a `usize`, which no tree
-- in memory overflows.
use llmlang.Prelude.{ℕ, ◌+◌, Bool, true, false, ◌&&◌}
use llmlang.Ast.{Expr, Exprs}

unfoldable mutual
  pub is_pure : Expr → Bool
  is_pure (Expr.integer _) = true
  is_pure (Expr.float _) = true
  is_pure (Expr.string _) = true
  is_pure (Expr.identifier _) = true
  is_pure (Expr.de_bruijn _) = true
  is_pure (Expr.expand _) = true
  is_pure (Expr.move e) = is_pure e
  is_pure (Expr.borrow e) = is_pure e
  is_pure (Expr.mut_borrow e) = is_pure e
  is_pure (Expr.len e) = is_pure e
  is_pure (Expr.str e) = is_pure e
  is_pure (Expr.cat l r) = is_pure l && is_pure r
  is_pure (Expr.loc l r) = is_pure l && is_pure r
  is_pure (Expr.reg l r) = is_pure l && is_pure r
  is_pure (Expr.seq l r) = is_pure l && is_pure r
  is_pure (Expr.binary_op _ l r) = is_pure l && is_pure r
  is_pure (Expr.sub s b l) = is_pure s && (is_pure b && is_pure l)
  is_pure (Expr.split s b l) = is_pure s && (is_pure b && is_pure l)
  is_pure (Expr.if_else c t f) = is_pure c && (is_pure t && is_pure f)
  is_pure (Expr.let_in _ v b) = is_pure v && is_pure b
  is_pure (Expr.new _ c) = is_pure c
  is_pure (Expr.get i _ idx) = is_pure i && is_pure idx
  is_pure (Expr.set _ _ _ _) = false
  is_pure (Expr.write _ _) = false
  is_pure (Expr.read _) = false
  is_pure Expr.time_now = false
  is_pure Expr.time_nano = false
  is_pure (Expr.env _) = false
  is_pure (Expr.panic _) = false
  is_pure (Expr.trap _ _) = false
  is_pure (Expr.http_client _ _ _) = false
  is_pure (Expr.http_server _ _) = false
  is_pure (Expr.http_header _ _) = false
  is_pure (Expr.file_open _ _) = false
  is_pure (Expr.time_get t i) = is_pure t && is_pure i
  is_pure (Expr.time_set y m d h mn s) =
      is_pure y && (is_pure m && (is_pure d && (is_pure h && (is_pure mn && is_pure s))))
  is_pure (Expr.pack e) = is_pure e
  is_pure (Expr.metadata _ _ t) = is_pure t
  is_pure (Expr.otel_emit _ _ _ _) = false
  is_pure (Expr.unpack e _) = is_pure e
  is_pure (Expr.map e _ f) = is_pure e && is_pure f
  is_pure (Expr.filter e f) = is_pure e && is_pure f
  is_pure (Expr.money_op _ l r) = is_pure l && is_pure r
  is_pure (Expr.money_str e) = is_pure e
  is_pure (Expr.time_op _ l r) = is_pure l && is_pure r
  is_pure Expr.time_zone = true
  is_pure (Expr.define _ _ body _) = is_pure body
  is_pure (Expr.apply f args) = is_pure f && all_pure args
  is_pure (Expr.import _ _ _) = false
  is_pure (Expr.shape _ _ _) = true

  pub all_pure : Exprs → Bool
  all_pure Exprs.nil = true
  all_pure (Exprs.cons e es) = is_pure e && all_pure es

unfoldable mutual
  pub complexity : Expr → ℕ
  complexity (Expr.integer _) = 1
  complexity (Expr.float _) = 1
  complexity (Expr.string _) = 1
  complexity (Expr.identifier _) = 1
  complexity (Expr.de_bruijn _) = 1
  complexity (Expr.expand _) = 1
  complexity (Expr.move e) = 1 + complexity e
  complexity (Expr.borrow e) = 1 + complexity e
  complexity (Expr.mut_borrow e) = 1 + complexity e
  complexity (Expr.len e) = 1 + complexity e
  complexity (Expr.str e) = 1 + complexity e
  complexity (Expr.cat l r) = 5 + complexity l + complexity r
  complexity (Expr.loc l r) = 5 + complexity l + complexity r
  complexity (Expr.reg l r) = 5 + complexity l + complexity r
  complexity (Expr.seq l r) = 5 + complexity l + complexity r
  complexity (Expr.binary_op _ l r) = 5 + complexity l + complexity r
  complexity (Expr.sub s b l) = 5 + complexity s + complexity b + complexity l
  complexity (Expr.split s b l) = 5 + complexity s + complexity b + complexity l
  complexity (Expr.if_else c t f) = 1 + complexity c + complexity t + complexity f
  complexity (Expr.let_in _ v b) = 1 + complexity v + complexity b
  complexity (Expr.new _ c) = 10 + complexity c
  complexity (Expr.get i _ idx) = 2 + complexity i + complexity idx
  complexity (Expr.set i _ idx v) = 2 + complexity i + complexity idx + complexity v
  complexity (Expr.define _ _ body _) = complexity body
  complexity (Expr.read h) = 1 + complexity h
  complexity (Expr.write h s) = 1 + complexity h + complexity s
  complexity (Expr.apply f args) = complexity f + args_complexity args + 5
  complexity Expr.time_now = 5
  complexity Expr.time_nano = 5
  complexity (Expr.env _) = 5
  complexity (Expr.time_get t i) = 5 + complexity t + complexity i
  complexity (Expr.time_set y m d h mn s) =
      10 + complexity y + complexity m + complexity d + complexity h + complexity mn + complexity s
  complexity (Expr.pack e) = 10 + complexity e
  complexity (Expr.metadata tag v t) = complexity tag + complexity v + complexity t
  complexity (Expr.otel_emit t a₁ a₂ a₃) =
      10 + complexity t + complexity a₁ + complexity a₂ + complexity a₃
  complexity (Expr.unpack e _) = 10 + complexity e
  complexity (Expr.map e _ f) = 20 + complexity e + complexity f
  complexity (Expr.filter e f) = 20 + complexity e + complexity f
  complexity (Expr.money_op _ l r) = 5 + complexity l + complexity r
  complexity (Expr.money_str e) = 10 + complexity e
  complexity (Expr.time_op _ l r) = 5 + complexity l + complexity r
  complexity Expr.time_zone = 5
  complexity (Expr.panic e) = 10 + complexity e
  complexity (Expr.trap t f) = 20 + complexity t + complexity f
  complexity (Expr.http_client m u b) = 10 + complexity m + complexity u + complexity b
  complexity (Expr.http_server op arg) = 10 + complexity op + complexity arg
  complexity (Expr.http_header req name) = 10 + complexity req + complexity name
  complexity (Expr.file_open path mode) = 10 + complexity path + complexity mode
  complexity (Expr.import _ _ _) = 1
  complexity (Expr.shape _ _ _) = 1

  pub args_complexity : Exprs → ℕ
  args_complexity Exprs.nil = 0
  args_complexity (Exprs.cons e es) = complexity e + args_complexity es
