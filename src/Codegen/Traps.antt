-- ===== src/Codegen/Traps.antt =====
-- src/compiler/codegen/parallel.rs and src/compiler/codegen/expr.rs: traps and the arguments of calls follow the
-- check of src/compiler/analysis/verify.rs.
use llmlang.Prelude.{ℕ, ◌≡◌, refl, sym, ap, subst, ◌∙◌, Bool, false, Text, List, length}
use llmlang.Ast.{Expr}
use llmlang.Error.{Result, ok, err, bind}
use llmlang.Verify.{
  VerificationContext, Check, ◌>>◌, captured, captured_states, check_trap, check_move, consume,
}
use llmlang.Codegen.Stack.{StackItem}
use llmlang.Codegen.Agreement.{states, captured-agree}
use llmlang.Codegen.Variables.{
  Frame, Step, Panic, Settings, return, next, emit, emitted, emit_on, move_of, move_item,
}
use llmlang.Codegen.Tasks.{
  hoists, gen_or_fork, in_task, trap_body, trap_task, gen_trap_sub_fn, gen_trap, nth, open_task,
  captured_values,
}
use llmlang.Codegen.Follows.{
  idle, Agrees, Fine, Follows, next-Fine, emitted-Fine, emit-Follows, return-Follows, next-Follows,
  end-Follows, consume-Follows,
}
use llmlang.Codegen.Regions.{expand-Follows}

-- A check of a side of a trap, behind which the context is as before.
abbrev pub aside : Check → Check
aside p c = bind (p (captured c)) λ _. ok c

aside-twice : (p q : Check) (c : VerificationContext) → check_trap p q c ≡ (aside p >> aside q) c
unfolding check_trap
aside-twice p q c = at (p (captured c))
  where
    at :
        (r : Result Text VerificationContext)
        → bind r (λ _. bind (q (captured c)) λ _. ok c) ≡ bind (bind r λ _. ok c) (aside q)
    at (ok _) = refl
    at (err _) = refl

module _ {G V : Type 0} (expand_map : List (Text × ℕ)) where
  emitting-Follows :
      {A : Type 0} (r : Frame G V → Result Text (A × G))
      → Follows expand_map idle (λ f. emitted f (r f))
  emitting-Follows r c c' f h e =
      let same : c ≡ c' = cc in
      emitted-Fine expand_map c' f (r f) (subst (λ d. Agrees expand_map d f) same h)

  trap_body-Follows :
      (s : Settings G V) (p : Check) (body : Step G V V)
      → Follows expand_map p body
      → Follows expand_map p (trap_body s body)
  unfolding trap_body
  trap_body-Follows s p body hb = end-Follows expand_map p body _ hb λ res. emitting-Follows _

  -- A step in a task follows a check of the variables of the task.
  in_task-Follows :
      (s : Settings G V) (p : Check) (m : Step G V V) (c : VerificationContext)
      (stack : List (StackItem V)) (depth : ℕ)
      → Follows expand_map p m
      → c.expand_map ≡ expand_map
      → c.stack ≡ states stack
      → Follows expand_map (λ d. bind (p c) λ _. ok d) (in_task s stack depth m)
  unfolding in_task
  in_task-Follows s p m c stack depth hm x y d d' f h e = at (p c) refl e
    where
      task : Frame G V
      task = record f { stack = stack; parallel_depth = depth }

      ended :
          (d₁ c₁ : VerificationContext) (r : Result Panic (V × Frame G V))
          → Agrees expand_map d₁ f
          → Fine expand_map c₁ (length stack) r
          → Fine expand_map d₁ (length f.stack) (elim r as (λ _. Result Panic (V × Frame G V)) [
            | err z ↦ err z
            | ok (a, f') ↦ ok (a, record f { llvm = f'.llvm })
          ])
      ended d₁ c₁ (ok (a, f')) g fine = (g, refl)
      ended d₁ c₁ (err (Panic.other t)) g fine = tt
      ended d₁ c₁ (err _) g fine = fine

      at :
          (r : Result Text VerificationContext)
          → p c ≡ r
          → bind r (λ _. ok d) ≡ ok d'
          → Fine expand_map d' (length f.stack) (in_task s stack depth m f)
      at (err z) t q = absurd (cc (q))
      at (ok c₁) t q =
          let same : d ≡ d' = cc in
          ended d' c₁ (m task) (subst (λ x'. Agrees expand_map x' f) same h) (hm c c₁ task (x, y) t)

  trap_task-Follows :
      (s : Settings G V) (p : Check) (body : Step G V V) (c : VerificationContext)
      (items : List (StackItem V)) (depth : ℕ) (opened : V × V × List V)
      → Follows expand_map p body
      → c.expand_map ≡ expand_map
      → c.stack ≡ states items
      → Follows expand_map
          (λ d. bind (p (captured c)) λ _. ok d)
          (trap_task s items depth body opened)
  unfolding trap_task captured
  trap_task-Follows s p body c items depth (task_fn, current, loaded) hb x y =
      end-Follows expand_map (λ d. bind (p (captured c)) λ _. ok d)
        (in_task s _ depth (trap_body s body)) _
        (in_task-Follows s p (trap_body s body) (captured c) _ depth (trap_body-Follows s p body hb)
          x (ap captured_states y ∙ sym ((captured-agree (nth task_fn loaded) items).0)))
        λ res. emit-Follows expand_map _

  sub_fn-Follows :
      (s : Settings G V) (p : Check) (body : Step G V V) (name : Text)
      → Follows expand_map p body
      → Follows expand_map (aside p) (gen_trap_sub_fn s body name)
  unfolding gen_trap_sub_fn next emit emit_on
  sub_fn-Follows s p body name hb c c' f h e =
      next-Fine expand_map c (length f.stack) (λ d. bind (p (captured c)) λ _. ok d)
        (trap_task s f.stack f.parallel_depth body)
        (λ opened. trap_task-Follows s p body c f.stack f.parallel_depth opened hb h.0 h.1) c' e _
        (emitted-Fine expand_map c f (open_task s name (captured_values f.stack) f.llvm) h)

  pub gen_trap-Follows :
      (s : Settings G V) (p q : Check) (try_body fallback_body : Step G V V)
      → Follows expand_map p try_body
      → Follows expand_map q fallback_body
      → Follows expand_map (check_trap p q) (gen_trap s try_body fallback_body)
  unfolding gen_trap
  gen_trap-Follows s p q try_body fallback_body hp hq c c' f h e =
      next-Follows expand_map (aside p) (aside q) (gen_trap_sub_fn s try_body _) _
        (sub_fn-Follows s p try_body _ hp)
        (λ try_fn.
          end-Follows expand_map (aside q) (gen_trap_sub_fn s fallback_body _) _
            (sub_fn-Follows s q fallback_body _ hq) λ fallback_fn. emit-Follows expand_map _)
        c c' f h (sym (aside-twice p q c) ∙ e)

  pub move_of-Follows :
      (inner : Expr) (p : Check) (m : Step G V V)
      → Follows expand_map p m
      → Follows expand_map (check_move inner p) (move_of expand_map inner m)
  unfolding check_move move_of
  move_of-Follows (Expr.de_bruijn k) p m hm = consume-Follows expand_map k
  move_of-Follows (Expr.expand name) p m hm =
      expand-Follows expand_map consume move_item name (consume-Follows expand_map)
  move_of-Follows _ p m hm = hm

  module _ (s : Settings G V) where
    pub fork-Follows :
        (e : Expr) (p : Check) (m : Step G V V)
        → ((f : Frame G V) → hoists s e f ≡ false)
        → Follows expand_map p m
        → Follows expand_map p (gen_or_fork s e m)
    unfolding gen_or_fork
    fork-Follows e p m never hm c c' f h z = rw (never f) (
        end-Follows expand_map p m (λ val. return (false, val)) hm
          (λ val. let res : Bool × V = (false, val) in return-Follows expand_map res) c c' f h z)
