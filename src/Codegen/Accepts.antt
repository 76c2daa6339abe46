-- ===== src/Codegen/Accepts.antt =====
-- src/compiler/codegen/expr.rs and src/compiler/codegen/symbol.rs: the code generator does not panic on the states
-- of variables, where the check of src/compiler/analysis/verify.rs accepts.
use llmlang.Prelude.{arith}
use llmlang.Codegen.Bodies.{IsSmall}
use llmlang.Prelude.{
  ℕ, suc, ◌==◌, ◌≡◌, refl, sym, subst, ◌∙◌, Bool, true, false, ◌&&◌, Text, codes, List, [], ◌∷◌,
  Option, none, some, lookup, length, join,
}
use llmlang.Ast.{Expr, Exprs}
use llmlang.Error.{Result, ok, err, bind}
use llmlang.Verify.{
  VerificationContext, Check, ◌>>◌, verify_expr, verify_args, check_callee, check_field,
  check_shape, check_inferred, check_mapped, check_function, check_let, check_branches,
  check_operator, check_identifier, access,
}
use llmlang.Analysis.{is_pure, complexity}
use llmlang.Codegen.Variables.{Frame, Step, Settings, return, next, emit, emit_on, access_item}
use llmlang.Codegen.Tasks.{hoists}
use llmlang.Codegen.Calls.{
  final_arg, gen_arg, gen_call, gen_apply, resolve, fields_of, join_args, call_function,
}
use llmlang.Codegen.Builder.{const}
use llmlang.Codegen.Bodies.{Inner, InnerAll, IsLiteral}
use llmlang.Codegen.Generate.{runtime_call}
use llmlang.Codegen.Walk.{gen_expr, gen_args}
use llmlang.Codegen.Follows.{
  idle, Keeps, Fine, Follows, emit_on-Follows, emit-Follows, return-Follows, next-Follows,
  end-Follows, before-Follows, behind-Follows, access-Follows,
}
use llmlang.Codegen.Builder.{gen_string_constant}
use llmlang.Codegen.Reads.{
  both-Keeps, operator-Keeps, shape-Keeps, field-Keeps, inferred-Keeps, mapped-Keeps,
  function-Keeps, callee-Keeps, identifier-Keeps,
}
use llmlang.Codegen.Regions.{expand-Follows, gen_let-Follows, gen_branches-Follows}
use llmlang.Codegen.Traps.{gen_trap-Follows, move_of-Follows, fork-Follows}

-- Nothing is expanded as a template.
pub record Plain {G V : Type 0} (s : Settings G V) : Type 0 where
  pub no_template : (name : Text) → lookup name s.symbols.templates ≡ none

literal-Keeps : (e : Expr) → IsLiteral e → Keeps (verify_expr e)
unfolding verify_expr
literal-Keeps (Expr.string _) h = λ c c' e. cc
literal-Keeps (Expr.integer _) h = λ c c' e. cc
literal-Keeps _ h = absurd h

bind-cong :
    (r : Result Text VerificationContext) {p q : Check}
    → ((c : VerificationContext) → p c ≡ q c)
    → bind r p ≡ bind r q
bind-cong (ok c) h = h c
bind-cong (err e) h = refl

assoc : (p q r : Check) (c : VerificationContext) → ((p >> q) >> r) c ≡ (p >> (q >> r)) c
assoc p q r c = at (p c)
  where
    at : (x : Result Text VerificationContext) → bind (bind x q) r ≡ bind x (q >> r)
    at (ok d) = refl
    at (err e) = refl

conv-Follows :
    {G V A : Type 0} (em : List (Text × ℕ)) (p q : Check) (m : Step G V A)
    → ((c : VerificationContext) → p c ≡ q c)
    → Follows em q m
    → Follows em p m
conv-Follows em p q m same h c c' f a e = h c c' f a (sym (same c) ∙ e)

-- What is small is not hoisted into a task, however much stack is left.
small-stays :
    {G V : Type 0} (s : Settings G V) (e : Expr)
    → IsSmall s.parallel_threshold e
    → (f : Frame G V) → hoists s e f ≡ false
unfolding hoists
small-stays s e h f = ground (arith, h)

module _ {G V : Type 0} (s : Settings G V) (plain : Plain s)
    (expand : Expr → List (Text × ℕ) → Step G V V) (em : List (Text × ℕ)) where
  idle-Follows :
      (q : Check) {A : Type 0} (m : Step G V A) → Keeps q → Follows em idle m → Follows em q m
  idle-Follows q m keeps h c c' f a e =
      subst (λ d. Fine em d (length f.stack) (m f)) (keeps c c' e) (h c c f a refl)

  -- The last argument is not hoisted, and the others are small.
  abbrev MayFork : Bool → Expr → Type 0
  MayFork true e = Unit
  MayFork false e = IsSmall s.parallel_threshold e

  other-text :
      (last : Bool) (t u : Text) → MayFork last (Expr.string t) → MayFork last (Expr.string u)
  unfolding is_pure complexity
  other-text true t u h = h
  other-text false t u h = h

  given-Follows :
      (last : Bool) (e : Expr) (p : Check) (m : Step G V V)
      → MayFork last e
      → Follows em p m
      → Follows em p (gen_arg s last (e, m))
  unfolding gen_arg
  given-Follows true e p m small h =
      end-Follows em p m (λ val. return (false, val)) h
        λ val. let res : Bool × V = (false, val) in return-Follows em res
  given-Follows false e p m small h = fork-Follows em s e p m (small-stays s e small) h

  arg-Follows :
      (last query : Bool) (e : Expr) (m : Step G V V)
      → MayFork last e
      → Follows em (verify_expr e) m
      → Follows em (verify_expr e) (gen_arg s last (final_arg s query e m))
  unfolding final_arg verify_expr fields_of
  arg-Follows last false e m small h = given-Follows last e (verify_expr e) m small h
  arg-Follows last true (Expr.string t) m small h = at (lookup t s.symbols.shapes)
    where
      at :
          (o : Option (List Text))
          → Follows em idle (
              gen_arg s last
                (elim (elim o as (λ _. Option Text) [
                  | none ↦ none
                  | some fields ↦ some (join (codes ",") fields)
                ])
                  as (λ _. Expr × Step G V V) [
                    | none ↦ (Expr.string t, m)
                    | some csv ↦ (Expr.string csv, emit (gen_string_constant s.llvm s.hash csv))
                  ]))
      at none = given-Follows last (Expr.string t) idle m small h
      at (some fields) =
          given-Follows last (Expr.string (join (codes ",") fields)) idle _
            (other-text last t (join (codes ",") fields) small) (emit-Follows em _)
  arg-Follows last true e m small h = given-Follows last e (verify_expr e) m small h

  apply-Follows :
      (f : Expr) (q : Check) (args : List Expr) (m : Step G V (List (Bool × V)))
      → Follows em q m
      → Follows em (check_callee f >> q) (gen_apply s expand f args m)
  unfolding gen_apply gen_call
  apply-Follows (Expr.identifier name) q args m h =
      before-Follows em (check_callee (Expr.identifier name)) q _
        (callee-Keeps (Expr.identifier name))
        λ c c' f a e. rw (plain.no_template (resolve s name f.llvm)) (
          end-Follows em q m
            (λ pending.
              next (emit (join_args s pending))
                λ vals. emit_on (call_function s name (resolve s name f.llvm) args vals))
            h
            (λ pending.
              end-Follows em idle (emit (join_args s pending))
                (λ vals. emit_on (call_function s name (resolve s name f.llvm) args vals))
                (emit-Follows em (join_args s pending)) λ vals. emit_on-Follows em _)
            c c' f a e)
  apply-Follows e q args m h = λ _ _ _ _ _. tt

  -- Operands in order, with an emission behind the last of them.
  two-Follows :
      (p q : Check) (m n : Step G V V) (k : V → V → Step G V V)
      → Follows em p m
      → Follows em q n
      → ((a b : V) → Follows em idle (k a b))
      → Follows em (p >> q) (next m λ a. next n λ b. k a b)
  two-Follows p q m n k hm hn hk =
      next-Follows em p q m (λ a. next n λ b. k a b) hm
        λ a. end-Follows em q n (λ b. k a b) hn (hk a)

  three-Follows :
      (p q r : Check) (m n o : Step G V V) (k : V → V → V → Step G V V)
      → Follows em p m
      → Follows em q n
      → Follows em r o
      → ((a b d : V) → Follows em idle (k a b d))
      → Follows em (p >> (q >> r)) (next m λ a. next n λ b. next o λ d. k a b d)
  three-Follows p q r m n o k hm hn ho hk =
      next-Follows em p (q >> r) m (λ a. next n λ b. next o λ d. k a b d) hm
        λ a. two-Follows q r n o (k a) hn ho (hk a)

  runtime-Follows :
      (name : Text) (vals : List V) (drops : List (Expr × V))
      → Follows em idle (runtime_call s name vals drops)
  unfolding runtime_call
  runtime-Follows name vals drops = emit_on-Follows em _

  mutual
    unfolding verify_expr gen_expr Inner

    pub gen_expr-Follows :
        (e : Expr)
        → Inner s.parallel_threshold e
        → Follows em (verify_expr e) (gen_expr s expand em e)
    gen_expr-Follows (Expr.integer i) h = return-Follows em (s.llvm.const_int i)
    gen_expr-Follows (Expr.float x) h = return-Follows em (s.llvm.const_float x)
    gen_expr-Follows (Expr.string t) h = emit-Follows em _
    gen_expr-Follows (Expr.identifier name) h =
        idle-Follows (check_identifier name) _ (identifier-Keeps name) (emit-Follows em _)
    gen_expr-Follows (Expr.de_bruijn index) h = access-Follows em index
    gen_expr-Follows (Expr.binary_op op l r) h =
        before-Follows em (check_operator op) (verify_expr l >> verify_expr r) _ (operator-Keeps op)
          (next-Follows em (verify_expr l) (verify_expr r) _ _
            (fork-Follows em s l (verify_expr l) _ (small-stays s l h.0) (gen_expr-Follows l h.1))
            λ pending. next-Follows em idle (verify_expr r) _ _ (emit-Follows em _) λ lhs.
              end-Follows em (verify_expr r) _ _ (gen_expr-Follows r h.2) λ rhs. emit-Follows em _)
    gen_expr-Follows (Expr.move inner) h =
        move_of-Follows em inner (verify_expr inner) _ (gen_expr-Follows inner h)
    gen_expr-Follows (Expr.borrow inner) h = gen_expr-Follows inner h
    gen_expr-Follows (Expr.mut_borrow inner) h = gen_expr-Follows inner h
    gen_expr-Follows (Expr.new name count) h =
        before-Follows em (check_shape name) (verify_expr count) _ (shape-Keeps name)
          (end-Follows em (verify_expr count) _ _ (gen_expr-Follows count h) λ a. emit-Follows em _)
    gen_expr-Follows (Expr.get e field index) h =
        next-Follows em (verify_expr e) (verify_expr index >> check_field e field) _ _
          (gen_expr-Follows e h.0)
          λ val.
            next-Follows em idle (verify_expr index >> check_field e field) _ _ (emit-Follows em _)
              λ ptr.
                behind-Follows em (verify_expr index) (check_field e field) _ (field-Keeps e field)
                  (end-Follows em (verify_expr index) _ _ (gen_expr-Follows index h.1)
                    λ i. emit_on-Follows em _)
    gen_expr-Follows (Expr.set e field index value) h =
        next-Follows em (verify_expr e)
          (verify_expr index >> (verify_expr value >> check_field e field)) _ _
          (gen_expr-Follows e h.0)
          λ val.
            next-Follows em idle (verify_expr index >> (verify_expr value >> check_field e field)) _
              _ (emit-Follows em _)
              λ ptr.
                next-Follows em (verify_expr index) (verify_expr value >> check_field e field) _ _
                  (gen_expr-Follows index h.1)
                  λ i.
                    next-Follows em idle (verify_expr value >> check_field e field) _ _
                      (emit-Follows em _)
                      λ int.
                        behind-Follows em (verify_expr value) (check_field e field) _
                          (field-Keeps e field)
                          (end-Follows em (verify_expr value) _ _ (gen_expr-Follows value h.2)
                            λ v. emit_on-Follows em _)
    gen_expr-Follows (Expr.if_else c t f) h =
        next-Follows em (verify_expr c) (check_branches (verify_expr t) (verify_expr f)) _ _
          (gen_expr-Follows c h.0)
          λ cond.
            next-Follows em idle (check_branches (verify_expr t) (verify_expr f)) _ _
              (emit-Follows em _)
              λ blocks.
                gen_branches-Follows em s blocks (verify_expr t) (verify_expr f) _ _
                  (gen_expr-Follows t h.1) (gen_expr-Follows f h.2)
    gen_expr-Follows (Expr.apply f args) h =
        apply-Follows f (verify_args args) _ _ (gen_args-Follows _ 0 args h)
    gen_expr-Follows (Expr.expand name) h =
        expand-Follows em access access_item name (access-Follows em)
    gen_expr-Follows (Expr.let_in _ v b) h =
        next-Follows em (verify_expr v) (check_let v (verify_expr b)) _ _ (gen_expr-Follows v h.0)
          λ val. gen_let-Follows em s v val (verify_expr b) _ (gen_expr-Follows b h.1)
    gen_expr-Follows (Expr.len e) h =
        end-Follows em (verify_expr e) _ _ (gen_expr-Follows e h) λ a. emit_on-Follows em _
    gen_expr-Follows (Expr.cat l r) h =
        two-Follows (verify_expr l) (verify_expr r) _ _ _ (gen_expr-Follows l h.0)
          (gen_expr-Follows r h.1)
          λ v_l v_r. runtime-Follows (codes "llm_cat") (v_l ∷ v_r ∷ []) ((l, v_l) ∷ (r, v_r) ∷ [])
    gen_expr-Follows (Expr.loc l r) h =
        two-Follows (verify_expr l) (verify_expr r) _ _ _ (gen_expr-Follows l h.0)
          (gen_expr-Follows r h.1)
          λ v_l v_r. runtime-Follows (codes "llm_loc") (v_l ∷ v_r ∷ []) ((l, v_l) ∷ (r, v_r) ∷ [])
    gen_expr-Follows (Expr.reg l r) h =
        two-Follows (verify_expr l) (verify_expr r) _ _ _ (gen_expr-Follows l h.0)
          (gen_expr-Follows r h.1)
          λ v_l v_r. runtime-Follows (codes "llm_reg") (v_l ∷ v_r ∷ []) ((l, v_l) ∷ (r, v_r) ∷ [])
    gen_expr-Follows (Expr.write l r) h =
        two-Follows (verify_expr l) (verify_expr r) _ _ _ (gen_expr-Follows l h.0)
          (gen_expr-Follows r h.1)
          λ v_l v_r. runtime-Follows (codes "llm_write") (v_l ∷ v_r ∷ []) ((l, v_l) ∷ (r, v_r) ∷ [])
    gen_expr-Follows (Expr.time_get l r) h =
        two-Follows (verify_expr l) (verify_expr r) _ _ _ (gen_expr-Follows l h.0)
          (gen_expr-Follows r h.1)
          λ v_l v_r. runtime-Follows (codes "llm_tai_get") (v_l ∷ v_r ∷ []) ((l, v_l) ∷ [])
    gen_expr-Follows (Expr.http_server l r) h =
        two-Follows (verify_expr l) (verify_expr r) _ _ _ (gen_expr-Follows l h.0)
          (gen_expr-Follows r h.1)
          λ v_l v_r.
            runtime-Follows (codes "llm_http_server") (v_l ∷ v_r ∷ []) ((l, v_l) ∷ (r, v_r) ∷ [])
    gen_expr-Follows (Expr.http_header l r) h =
        two-Follows (verify_expr l) (verify_expr r) _ _ _ (gen_expr-Follows l h.0)
          (gen_expr-Follows r h.1)
          λ v_l v_r.
            runtime-Follows (codes "llm_http_get_header") (v_l ∷ v_r ∷ [])
              ((l, v_l) ∷ (r, v_r) ∷ [])
    gen_expr-Follows (Expr.file_open l r) h =
        two-Follows (verify_expr l) (verify_expr r) _ _ _ (gen_expr-Follows l h.0)
          (gen_expr-Follows r h.1)
          λ v_l v_r.
            runtime-Follows (codes "llm_file_open") (v_l ∷ v_r ∷ []) ((l, v_l) ∷ (r, v_r) ∷ [])
    gen_expr-Follows (Expr.money_op _ l r) h =
        two-Follows (verify_expr l) (verify_expr r) _ _ _ (gen_expr-Follows l h.0)
          (gen_expr-Follows r h.1) λ _ _. emit-Follows em _
    gen_expr-Follows (Expr.time_op _ l r) h =
        two-Follows (verify_expr l) (verify_expr r) _ _ _ (gen_expr-Follows l h.0)
          (gen_expr-Follows r h.1) λ _ _. emit-Follows em _
    gen_expr-Follows (Expr.sub a b d) h =
        three-Follows (verify_expr a) (verify_expr b) (verify_expr d) _ _ _ _
          (gen_expr-Follows a h.0) (gen_expr-Follows b h.1) (gen_expr-Follows d h.2)
          λ v_a v_b v_d. runtime-Follows (codes "llm_sub") (v_a ∷ v_b ∷ v_d ∷ []) ((a, v_a) ∷ [])
    gen_expr-Follows (Expr.split a b d) h =
        three-Follows (verify_expr a) (verify_expr b) (verify_expr d) _ _ _ _
          (gen_expr-Follows a h.0) (gen_expr-Follows b h.1) (gen_expr-Follows d h.2)
          λ v_a v_b v_d.
            runtime-Follows (codes "llm_split") (v_a ∷ v_b ∷ v_d ∷ []) ((a, v_a) ∷ (b, v_b) ∷ [])
    gen_expr-Follows (Expr.http_client a b d) h =
        three-Follows (verify_expr a) (verify_expr b) (verify_expr d) _ _ _ _
          (gen_expr-Follows a h.0) (gen_expr-Follows b h.1) (gen_expr-Follows d h.2)
          λ v_a v_b v_d.
            runtime-Follows (codes "llm_http_client") (v_a ∷ v_b ∷ v_d ∷ [])
              ((a, v_a) ∷ (b, v_b) ∷ (d, v_d) ∷ [])
    gen_expr-Follows (Expr.read e) h =
        end-Follows em (verify_expr e) _ _ (gen_expr-Follows e h)
          λ v_e. runtime-Follows (codes "llm_read") (v_e ∷ []) ((e, v_e) ∷ [])
    gen_expr-Follows (Expr.str e) h =
        end-Follows em (verify_expr e) _ _ (gen_expr-Follows e h)
          λ v_e. runtime-Follows (codes "llm_itoa") (v_e ∷ []) ((e, v_e) ∷ [])
    gen_expr-Follows (Expr.env e) h =
        end-Follows em (verify_expr e) _ _ (gen_expr-Follows e h)
          λ v_e. runtime-Follows (codes "llm_getenv") (v_e ∷ []) ((e, v_e) ∷ [])
    gen_expr-Follows Expr.time_now h = emit-Follows em _
    gen_expr-Follows Expr.time_nano h = emit-Follows em _
    gen_expr-Follows Expr.time_zone h = emit-Follows em _
    gen_expr-Follows (Expr.time_set y m d hr mn sec) h =
        next-Follows em (verify_expr y)
          (verify_expr m
            >> (verify_expr d >> (verify_expr hr >> (verify_expr mn >> verify_expr sec))))
          _ _ (gen_expr-Follows y h.0)
          λ v_y.
            next-Follows em (verify_expr m)
              (verify_expr d >> (verify_expr hr >> (verify_expr mn >> verify_expr sec))) _ _
              (gen_expr-Follows m h.1)
              λ v_m.
                next-Follows em (verify_expr d)
                  (verify_expr hr >> (verify_expr mn >> verify_expr sec)) _ _
                  (gen_expr-Follows d h.2)
                  λ v_d.
                    three-Follows (verify_expr hr) (verify_expr mn) (verify_expr sec) _ _ _ _
                      (gen_expr-Follows hr h.3) (gen_expr-Follows mn h.4) (gen_expr-Follows sec h.5)
                      λ v_hr v_mn v_sec.
                        runtime-Follows (codes "llm_tai_set")
                          (v_y ∷ v_m ∷ v_d ∷ v_hr ∷ v_mn ∷ v_sec ∷ [])
                          ((y, v_y)
                            ∷ (m, v_m)
                            ∷ (d, v_d)
                            ∷ (hr, v_hr)
                            ∷ (mn, v_mn)
                            ∷ (sec, v_sec)
                            ∷ [])
    gen_expr-Follows (Expr.seq (Expr.http_client m u b) e₂) h =
        conv-Follows em _ (verify_expr m >> (verify_expr u >> (verify_expr b >> verify_expr e₂))) _
          (λ c.
            assoc (verify_expr m) (verify_expr u >> verify_expr b) (verify_expr e₂) c
            ∙ bind-cong (verify_expr m c) (assoc (verify_expr u) (verify_expr b) (verify_expr e₂)))
          (next-Follows em (verify_expr m) (verify_expr u >> (verify_expr b >> verify_expr e₂)) _ _
            (gen_expr-Follows m (h.0).0)
            λ _.
              next-Follows em (verify_expr u) (verify_expr b >> verify_expr e₂) _ _
                (gen_expr-Follows u (h.0).1)
                λ _.
                  next-Follows em (verify_expr b) (verify_expr e₂) _ _ (gen_expr-Follows b (h.0).2)
                    λ _. next-Follows em idle (verify_expr e₂) _ _ (emit-Follows em _) λ _.
                      next-Follows em idle (verify_expr e₂) _ _ (emit_on-Follows em _)
                        λ _. gen_expr-Follows e₂ h.1)
    gen_expr-Follows (Expr.seq e₁ e₂) h =
        next-Follows em (verify_expr e₁) (verify_expr e₂) _ _ (gen_expr-Follows e₁ h.0) λ val.
          next-Follows em idle (verify_expr e₂) _ _ (emit_on-Follows em _)
            λ _. gen_expr-Follows e₂ h.1
    gen_expr-Follows (Expr.pack e) h =
        behind-Follows em (verify_expr e) (check_inferred e) _ (inferred-Keeps e)
          (end-Follows em (verify_expr e) _ _ (gen_expr-Follows e h) λ _. emit_on-Follows em _)
    gen_expr-Follows (Expr.otel_emit t a₁ a₂ a₃) h =
        next-Follows em (verify_expr t) (verify_expr a₁ >> (verify_expr a₂ >> verify_expr a₃)) _ _
          (gen_expr-Follows t h.0)
          λ _.
            three-Follows (verify_expr a₁) (verify_expr a₂) (verify_expr a₃) _ _ _ _
              (gen_expr-Follows a₁ h.1) (gen_expr-Follows a₂ h.2) (gen_expr-Follows a₃ h.3)
              λ _ _ _. end-Follows em idle _ _ (emit-Follows em _) λ _.
                end-Follows em idle _ _ (emit_on-Follows em _)
                  λ _. return-Follows em (const s.llvm 0)
    gen_expr-Follows (Expr.unpack e name) h =
        behind-Follows em (verify_expr e) (check_shape name) _ (shape-Keeps name)
          (end-Follows em (verify_expr e) _ _ (gen_expr-Follows e h) λ _. emit_on-Follows em _)
    gen_expr-Follows (Expr.map e field f) h =
        behind-Follows em (verify_expr e) (check_mapped e field >> check_function f) _
          (both-Keeps (check_mapped e field) (check_function f) (mapped-Keeps e field)
            (function-Keeps f))
          (end-Follows em (verify_expr e) _ _ (gen_expr-Follows e h) λ _. emit_on-Follows em _)
    gen_expr-Follows (Expr.filter e f) h =
        behind-Follows em (verify_expr e) (check_inferred e >> check_function f) _
          (both-Keeps (check_inferred e) (check_function f) (inferred-Keeps e) (function-Keeps f))
          (end-Follows em (verify_expr e) _ _ (gen_expr-Follows e h) λ _. emit_on-Follows em _)
    gen_expr-Follows (Expr.money_str e) h =
        end-Follows em (verify_expr e) _ _ (gen_expr-Follows e h) λ _. emit-Follows em _
    gen_expr-Follows (Expr.panic e) h =
        end-Follows em (verify_expr e) _ _ (gen_expr-Follows e h)
          λ _. end-Follows em idle _ _ (emit-Follows em _) λ _. return-Follows em (const s.llvm 0)
    gen_expr-Follows (Expr.trap t f) h =
        gen_trap-Follows em s (verify_expr t) (verify_expr f) _ _ (gen_expr-Follows t h.0)
          (gen_expr-Follows f h.1)
    gen_expr-Follows (Expr.shape _ _ _) h = return-Follows em (const s.llvm 0)
    gen_expr-Follows (Expr.import _ _ _) h = return-Follows em (const s.llvm 0)
    gen_expr-Follows (Expr.define _ _ _ _) h = absurd h
    gen_expr-Follows (Expr.metadata tag v t) h =
        before-Follows em (verify_expr tag) (verify_expr v >> verify_expr t) _
          (literal-Keeps tag h.0)
          (before-Follows em (verify_expr v) (verify_expr t) _ (literal-Keeps v h.1)
            (gen_expr-Follows t h.2))

    gen_args-Follows :
        (query : Bool) (i : ℕ) (es : Exprs)
        → InnerAll s.parallel_threshold es
        → Follows em (verify_args es) (gen_args s expand em query i es)
    gen_args-Follows query i Exprs.nil h =
        let none_left : List (Bool × V) = [] in return-Follows em none_left
    gen_args-Follows query i (Exprs.cons e Exprs.nil) h =
        next-Follows em (verify_expr e) (verify_args Exprs.nil) _ _
          (arg-Follows true (query && i == 2) e _ tt (gen_expr-Follows e h))
          λ val.
            end-Follows em (verify_args Exprs.nil) _ _ (gen_args-Follows query (suc i) Exprs.nil tt)
              λ vals. let all : List (Bool × V) = val ∷ vals in return-Follows em all
    gen_args-Follows query i (Exprs.cons e (Exprs.cons d es)) h =
        next-Follows em (verify_expr e) (verify_args (Exprs.cons d es)) _ _
          (arg-Follows false (query && i == 2) e _ h.0 (gen_expr-Follows e h.1))
          λ val.
            end-Follows em (verify_args (Exprs.cons d es)) _ _
              (gen_args-Follows query (suc i) (Exprs.cons d es) h.2)
              λ vals. let all : List (Bool × V) = val ∷ vals in return-Follows em all
