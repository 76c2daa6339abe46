-- ===== src/Codegen/Walk.antt =====
-- src/compiler/codegen/expr.rs: `gen_expr`, by the kinds of expressions. The bodies of templates are
-- generated by `expand`, which `gen_on_fuel` ties: a template that calls itself is expanded for ever.
use llmlang.Prelude.{ℕ, zero, suc, ◌==◌, Bool, ◌&&◌, Text, codes, List, [], ◌∷◌}
use llmlang.Ast.{Expr, Exprs}
use llmlang.Error.{err}
use llmlang.Codegen.Stack.{infer_item_shape}
use llmlang.Codegen.Builder.{pure, const, call, as_int, gen_string_constant}
use llmlang.Codegen.Columns.{emit_new, emit_get, emit_set, instance_ptr}
use llmlang.Codegen.Rows.{emit_map, emit_filter}
use llmlang.Codegen.Operators.{emit_binary, emit_money, emit_time}
use llmlang.Codegen.Variables.{
  Step, Panic, Settings, return, next, emit, emit_on, access_item, expand_item, move_of,
  drop_operands,
}
use llmlang.Codegen.Tasks.{gen_or_fork, join, gen_trap}
use llmlang.Codegen.Calls.{
  list_of, is_nil, is_db_query, final_arg, gen_arg, identifier_value, gen_apply,
}
use llmlang.Codegen.Generate.{
  runtime_call, then_drop, emit_then, gen_let, open_branches, gen_branches, mapped, emit_pack,
  emit_unpack, emit_async, emit_len,
}

infixl 5 ◌>>=◌
abbrev ◌>>=◌ : {G V A B : Type 0} → Step G V A → (A → Step G V B) → Step G V B
m >>= k = next m k

infixl 5 ◌>>◌
abbrev ◌>>◌ : {G V A B : Type 0} → Step G V A → Step G V B → Step G V B
m >> n = next m λ _. n

-- The name of a function that is called.
abbrev pub callee_name : Expr → Text
callee_name (Expr.identifier name) = name
callee_name _ = []

module _ {G V : Type 0} (s : Settings G V) (expand : Expr → List (Text × ℕ) → Step G V V)
    (expand_map : List (Text × ℕ)) where
  unfoldable mutual
    unfolding access_item expand_item move_of identifier_value gen_string_constant gen_or_fork join
        emit_binary emit_new emit_get emit_set instance_ptr as_int runtime_call drop_operands
        gen_let open_branches gen_branches mapped emit_map emit_filter emit_pack emit_unpack
        emit_async emit_len emit_money emit_time gen_trap gen_apply gen_arg final_arg is_db_query
        infer_item_shape

    pub gen_expr : Expr → Step G V V
    gen_expr (Expr.integer i) = return (s.llvm.const_int i)
    gen_expr (Expr.float x) = return (s.llvm.const_float x)
    gen_expr (Expr.string t) = emit (gen_string_constant s.llvm s.hash t)
    gen_expr (Expr.identifier name) = emit (identifier_value s name)
    gen_expr (Expr.de_bruijn index) = access_item index
    gen_expr (Expr.binary_op op l r) = do
      pending ← gen_or_fork s l (gen_expr l)
      lhs ← emit (join s pending)
      rhs ← gen_expr r
      emit (emit_binary s.llvm op lhs rhs)
    gen_expr (Expr.move inner) = move_of expand_map inner (gen_expr inner)
    gen_expr (Expr.borrow inner) = gen_expr inner
    gen_expr (Expr.mut_borrow inner) = gen_expr inner
    gen_expr (Expr.new name count) = do
      count_val ← gen_expr count
      emit (emit_new s.llvm s.symbols.shapes name count_val)
    gen_expr (Expr.get e field index) = do
      val ← gen_expr e
      ptr ← emit (instance_ptr s.llvm val)
      index_val ← gen_expr index
      emit_on λ stack.
          emit_then
            (emit_get s.llvm s.symbols.shapes (infer_item_shape e stack) field ptr index_val)
            λ loaded. emit_then (drop_operands s ((e, val) ∷ []) stack) λ _. pure loaded
    gen_expr (Expr.set e field index value) = do
      val ← gen_expr e
      ptr ← emit (instance_ptr s.llvm val)
      index_val ← gen_expr index
      index_int ← emit (as_int s.llvm index_val)
      new_val ← gen_expr value
      emit_on λ stack.
          emit_then
            (emit_set s.llvm s.symbols.shapes (infer_item_shape e stack) field ptr index_int
              new_val)
            λ _. emit_then (drop_operands s ((e, val) ∷ []) stack) λ _. pure new_val
    gen_expr (Expr.if_else c t f) = do
      cond ← gen_expr c
      blocks ← emit (open_branches s cond)
      gen_branches s blocks (gen_expr t) (gen_expr f)
    gen_expr (Expr.apply f args) =
        gen_apply s expand f (list_of args) (gen_args (is_db_query s (callee_name f)) 0 args)
    gen_expr (Expr.expand name) = expand_item access_item expand_map name
    gen_expr (Expr.let_in _ v b) = do val ← gen_expr v; gen_let s v val (gen_expr b)
    gen_expr (Expr.len e) = do
      val ← gen_expr e
      emit_on λ stack. emit_len s (infer_item_shape e stack) val
    gen_expr (Expr.cat l r) = do
      a ← gen_expr l
      b ← gen_expr r
      runtime_call s (codes "llm_cat") (a ∷ b ∷ []) ((l, a) ∷ (r, b) ∷ [])
    gen_expr (Expr.sub t b l) = do
      t' ← gen_expr t
      b' ← gen_expr b
      l' ← gen_expr l
      runtime_call s (codes "llm_sub") (t' ∷ b' ∷ l' ∷ []) ((t, t') ∷ [])
    gen_expr (Expr.loc t p) = do
      a ← gen_expr t
      b ← gen_expr p
      runtime_call s (codes "llm_loc") (a ∷ b ∷ []) ((t, a) ∷ (p, b) ∷ [])
    gen_expr (Expr.reg t r) = do
      a ← gen_expr t
      b ← gen_expr r
      runtime_call s (codes "llm_reg") (a ∷ b ∷ []) ((t, a) ∷ (r, b) ∷ [])
    gen_expr (Expr.read h) = do
      a ← gen_expr h
      runtime_call s (codes "llm_read") (a ∷ []) ((h, a) ∷ [])
    gen_expr (Expr.write h t) = do
      a ← gen_expr h
      b ← gen_expr t
      runtime_call s (codes "llm_write") (a ∷ b ∷ []) ((h, a) ∷ (t, b) ∷ [])
    gen_expr (Expr.str e) = do
      a ← gen_expr e
      runtime_call s (codes "llm_itoa") (a ∷ []) ((e, a) ∷ [])
    gen_expr (Expr.split t d i) = do
      t' ← gen_expr t
      d' ← gen_expr d
      i' ← gen_expr i
      runtime_call s (codes "llm_split") (t' ∷ d' ∷ i' ∷ []) ((t, t') ∷ (d, d') ∷ [])
    gen_expr Expr.time_now = emit (call s.llvm (codes "llm_tai_now") [])
    gen_expr Expr.time_nano = emit (call s.llvm (codes "llm_tai_nano") [])
    gen_expr (Expr.time_get t i) = do
      a ← gen_expr t
      b ← gen_expr i
      runtime_call s (codes "llm_tai_get") (a ∷ b ∷ []) ((t, a) ∷ [])
    gen_expr (Expr.time_set y m d h mn sec) = do
      y' ← gen_expr y
      m' ← gen_expr m
      d' ← gen_expr d
      h' ← gen_expr h
      mn' ← gen_expr mn
      s' ← gen_expr sec
      runtime_call s (codes "llm_tai_set") (y' ∷ m' ∷ d' ∷ h' ∷ mn' ∷ s' ∷ [])
          ((y, y') ∷ (m, m') ∷ (d, d') ∷ (h, h') ∷ (mn, mn') ∷ (sec, s') ∷ [])
    gen_expr (Expr.env k) = do
      a ← gen_expr k
      runtime_call s (codes "llm_getenv") (a ∷ []) ((k, a) ∷ [])
    gen_expr (Expr.http_client m u b) = do
      m' ← gen_expr m
      u' ← gen_expr u
      b' ← gen_expr b
      runtime_call s (codes "llm_http_client") (m' ∷ u' ∷ b' ∷ [])
          ((m, m') ∷ (u, u') ∷ (b, b') ∷ [])
    gen_expr (Expr.http_server op arg) = do
      a ← gen_expr op
      b ← gen_expr arg
      runtime_call s (codes "llm_http_server") (a ∷ b ∷ []) ((op, a) ∷ (arg, b) ∷ [])
    gen_expr (Expr.http_header req name) = do
      a ← gen_expr req
      b ← gen_expr name
      runtime_call s (codes "llm_http_get_header") (a ∷ b ∷ []) ((req, a) ∷ (name, b) ∷ [])
    gen_expr (Expr.file_open path mode) = do
      a ← gen_expr path
      b ← gen_expr mode
      runtime_call s (codes "llm_file_open") (a ∷ b ∷ []) ((path, a) ∷ (mode, b) ∷ [])
    gen_expr (Expr.seq (Expr.http_client m u b) e₂) = do
      m' ← gen_expr m
      u' ← gen_expr u
      b' ← gen_expr b
      emit (emit_async s (const s.llvm 1 ∷ []) (m' ∷ u' ∷ b' ∷ []))
      emit_on (drop_operands s ((m, m') ∷ (u, u') ∷ (b, b') ∷ []))
      gen_expr e₂
    gen_expr (Expr.seq e₁ e₂) = do
      val ← gen_expr e₁
      emit_on (drop_operands s ((e₁, val) ∷ []))
      gen_expr e₂
    gen_expr (Expr.pack e) = do
      val ← gen_expr e
      emit_on λ stack.
          emit_then (emit_pack s (infer_item_shape e stack) val)
            λ res. emit_then (drop_operands s ((e, val) ∷ []) stack) λ _. pure res
    gen_expr (Expr.otel_emit t a₁ a₂ a₃) = do
      t' ← gen_expr t
      v₁ ← gen_expr a₁
      v₂ ← gen_expr a₂
      v₃ ← gen_expr a₃
      emit (emit_async s [] (t' ∷ v₁ ∷ v₂ ∷ v₃ ∷ []))
      emit_on (drop_operands s ((t, t') ∷ (a₁, v₁) ∷ (a₂, v₂) ∷ (a₃, v₃) ∷ []))
      return (const s.llvm 0)
    gen_expr (Expr.unpack e name) = do val ← gen_expr e; then_drop s (emit_unpack s name val) e val
    gen_expr (Expr.map e field f) = do
      val ← gen_expr e
      emit_on λ stack.
          emit_then
            (emit_map s.llvm s.hash s.symbols.shapes (infer_item_shape e stack) field (mapped s f)
              val)
            λ res. emit_then (drop_operands s ((e, val) ∷ []) stack) λ _. pure res
    gen_expr (Expr.filter e f) = do
      val ← gen_expr e
      emit_on λ stack.
          emit_then
            (emit_filter s.llvm s.hash s.symbols.shapes (infer_item_shape e stack)
              ((mapped s f).resolved) val)
            λ res. emit_then (drop_operands s ((e, val) ∷ []) stack) λ _. pure res
    gen_expr (Expr.money_op op l r) = do
      lhs ← gen_expr l
      rhs ← gen_expr r
      emit (emit_money s.llvm op lhs rhs)
    gen_expr (Expr.money_str e) = do
      val ← gen_expr e
      emit (call s.llvm (codes "llm_money_format") (val ∷ []))
    gen_expr (Expr.time_op op l r) = do
      lhs ← gen_expr l
      rhs ← gen_expr r
      emit (emit_time s.llvm op lhs rhs)
    gen_expr Expr.time_zone = emit (call s.llvm (codes "llm_timezone") [])
    gen_expr (Expr.panic e) = do
      val ← gen_expr e
      emit (call s.llvm (codes "llm_panic") (val ∷ []))
      return (const s.llvm 0)
    gen_expr (Expr.trap t f) = gen_trap s (gen_expr t) (gen_expr f)
    gen_expr (Expr.shape _ _ _) = return (const s.llvm 0)
    gen_expr (Expr.import _ _ _) = return (const s.llvm 0)
    gen_expr (Expr.define _ _ _ _) = return (const s.llvm 0)
    gen_expr (Expr.metadata _ _ t) = gen_expr t

    -- The arguments from this one on; the third of a query of the database may be a shape.
    pub gen_args : Bool → ℕ → Exprs → Step G V (List (Bool × V))
    gen_args query i Exprs.nil = return []
    gen_args query i (Exprs.cons e es) = do
      val ← gen_arg s (is_nil es) (final_arg s (query && i == 2) e (gen_expr e))
      vals ← gen_args query (suc i) es
      return (val ∷ vals)

module _ {G V : Type 0} (s : Settings G V) where
  unfoldable pub gen_on_fuel : ℕ → Expr → List (Text × ℕ) → Step G V V
  unfolding gen_expr
  gen_on_fuel zero e expand_map = λ _. err Panic.out_of_fuel
  gen_on_fuel (suc fuel) e expand_map = gen_expr s (gen_on_fuel fuel) expand_map e
