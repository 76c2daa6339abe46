-- ===== src/Verify/Scopes.antt =====
-- The check of a `let`, of two branches and of a trap goes with a run of them.
use llmlang.Prelude.{
  ℕ, ◌+◌, ◌≡◌, sym, ap, Bool, false, not, Text, codes, subst, List, ◌∷◌, inl, inr, if◌then◌else◌,
  arith, Bool-cases,
}
use llmlang.Ast.{Expr}
use llmlang.Error.{Result, ok, err, bind, bind-eq-ok, ok_injective}
use llmlang.Verify.Checks.{
  VerificationContext, Check, is_moved, is_captured, push, pop_variable, check_let, states_eq,
  check_branches, captured, check_trap, infer_shape,
}
use llmlang.Verify.Machine.{
  Machine, Run, bind_slot, choose, first_choice, later_choices, live, run_trap,
}
use llmlang.Verify.Invariant.{
  Inv, movable, Step, Sound, Below-weaken, LogBelow-weaken, LogBelow-fresh, Agrees-transfer,
}
use llmlang.Verify.Steps.{Step-trans}
use llmlang.Verify.Captures.{
  Agrees-pop, movable-pop, movable-fresh, states_eq→eq, Agrees-captured, Below-live,
  movable-captured,
}

module _ (x : List (Text × ℕ)) where
  -- A step that could move nothing keeps what holds of any other variables.
  Step-borrowed :
      {d d' k : VerificationContext} {e env : List ℕ} {m n : Machine}
      → ((j : ℕ) → movable j d.stack e ≡ false)
      → Step x d d' e m n
      → Inv x k env m
      → Step x k k env m n
  Step-borrowed {k = k} {env = env} {m = m} {n = n} still s i = record {
    inv = record {
      expands = i.expands;
      below = Below-weaken env s.next_le i.below;
      agrees =
          Agrees-transfer m.next k.stack env m.log n.log i.below (λ j h. (s.frame j h (still j)).1)
            i.agrees;
      log_below = s.inv.log_below;
      linear = s.inv.linear;
    };
    next_le = s.next_le;
    frame = λ j h f. (f, (s.frame j h (still j)).1);
  }

  pub let-Sound :
      (env : List ℕ) (e : Expr) (body : Check) (b : ℕ → Run)
      → ((i : ℕ) → Sound x (i ∷ env) body (b i))
      → Sound x env (check_let e body) (bind_slot b)
  unfolding check_let bind_slot push pop_variable is_moved is_captured
  let-Sound env e body b hb c c' m i h =
      let pushed = push (infer_shape e c.stack_shapes) c in
      let (c₁, checked, popped) = bind-eq-ok (body pushed) (λ d. ok (pop_variable d)) h in
      let fresh = LogBelow-fresh m.next m.log i.log_below in
      let m₁ : Machine = record m { next = m.next + 1 } in
      let v : Inv x pushed (m.next ∷ env) m₁ = record {
        expands = i.expands;
        below = (omega arith, i.below);
        agrees = (sym fresh, ap not (sym fresh), i.agrees);
        log_below = LogBelow-weaken m.log (omega arith) i.log_below;
        linear = i.linear;
      } in
      let s = hb m.next pushed c₁ m₁ v checked in
      let n : Machine = b m.next m₁ in
      let here : Step x c (pop_variable c₁) env m n = record {
        inv = record {
          expands = s.inv.expands;
          below = Below-weaken env (omega (arith, s.next_le)) s.inv.below.1;
          agrees = Agrees-pop c₁.stack m.next env n.log s.inv.agrees;
          log_below = s.inv.log_below;
          linear = s.inv.linear;
        };
        next_le = omega (arith, s.next_le);
        frame = λ j lt f.
            let (still, same) = s.frame j (omega arith) (movable-fresh j m.next c.stack env lt f) in
            (movable-pop j m.next c₁.stack env still, same);
      } in
      rw (ok_injective popped) at here

  -- The choices that are left matter to no invariant.
  Step-choices :
      {c c' : VerificationContext} {env : List ℕ} {m n : Machine} {bs : List Bool}
      → Step x c c' env (record m { choices = bs }) n
      → Step x c c' env m n
  Step-choices s = record { inv = s.inv; next_le = s.next_le; frame = s.frame }

  Step-same_stack :
      {c d c' : VerificationContext} {env : List ℕ} {m n : Machine}
      → d.stack ≡ c'.stack
      → c'.expand_map ≡ x
      → Step x c d env m n
      → Step x c c' env m n
  Step-same_stack {env = env} {n = n} e p s = record {
    inv = record {
      expands = p;
      below = s.inv.below;
      agrees = rw e at s.inv.agrees;
      log_below = s.inv.log_below;
      linear = s.inv.linear;
    };
    next_le = s.next_le;
    frame = λ j h f. let (still, same) = s.frame j h f in (rw e at still, same);
  }

  pub branches-Sound :
      (env : List ℕ) (t f : Check) (p q : Run)
      → Sound x env t p
      → Sound x env f q
      → Sound x env (check_branches t f) (choose p q)
  unfolding check_branches choose
  branches-Sound env t f p q hp hq c c' m i h =
      let (ct, ran, rest) = bind-eq-ok (t c) (λ ct. bind (f (again ct)) (agree ct)) h in
      let (ce, ran', both) = bind-eq-ok (f (again ct)) (agree ct) rest in
      let (same, last) = agreed ct ce both in
      let i₁ : Inv x c env m₁ = record {
        expands = i.expands;
        below = i.below;
        agrees = i.agrees;
        log_below = i.log_below;
        linear = i.linear;
      } in
      let s = hp c ct m₁ i₁ ran in
      let i₂ : Inv x (again ct) env m₁ = record {
        expands = s.inv.expands;
        below = i.below;
        agrees = i.agrees;
        log_below = i.log_below;
        linear = i.linear;
      } in
      let s' = hq (again ct) ce m₁ i₂ ran' in
      let here : Step x c ce env m (p m₁) =
        Step-choices {bs = later_choices m.choices} (Step-same_stack same s'.inv.expands s) in
      let there : Step x c ce env m (q m₁) =
        Step-choices {bs = later_choices m.choices}
          (record { inv = s'.inv; next_le = s'.next_le; frame = s'.frame }) in
      elim (Bool-cases (first_choice m.choices)) [
        | inl e ↦ rw (e, choose) (rw last at here)
        | inr e ↦ rw (e, choose) (rw last at there)
      ]
    where
      m₁ : Machine
      m₁ = record m { choices = later_choices m.choices }

      again : VerificationContext → VerificationContext
      again ct = record ct { stack = c.stack; stack_shapes = c.stack_shapes }

      agree : VerificationContext → VerificationContext → Result Text VerificationContext
      agree ct ce = if states_eq ct.stack ce.stack then ok ce else err (codes "E009")

      agreed :
          (ct ce : VerificationContext) → agree ct ce ≡ ok c' → (ct.stack ≡ ce.stack) × (ce ≡ c')
      agreed ct ce e = ground (arith, states_eq→eq ct.stack ce.stack)

  pub trap-Sound :
      (env : List ℕ) (t f : Check) (p q : List ℕ → Run)
      → ((e : List ℕ) → Sound x e t (p e))
      → ((e : List ℕ) → Sound x e f (q e))
      → Sound x env (check_trap t f) (run_trap env p q)
  unfolding check_trap run_trap choose captured
  trap-Sound env t f p q hp hq c c' m i h =
      let (ct, ran, rest) =
        bind-eq-ok (t (captured c)) (λ _. bind (f (captured c)) (λ _. ok c)) h in
      let (cf, ran', last) = bind-eq-ok (f (captured c)) (λ _. ok c) rest in
      let inside : Inv x (captured c) env' m = record {
        expands = i.expands;
        below = Below-live m.next env m.log i.below;
        agrees = Agrees-captured c.stack env m.log i.agrees;
        log_below = i.log_below;
        linear = i.linear;
      } in
      let still = λ (j : ℕ). movable-captured j c.stack env' in
      let s = hp env' (captured c) ct m inside ran in
      let tried = Step-borrowed still s i in
      let kept = (Step-borrowed still s inside).inv in
      let m₁ = p env' m in
      let m₂ : Machine = record m₁ { choices = later_choices m₁.choices } in
      let kept' : Inv x (captured c) env' m₂ = record {
        expands = kept.expands;
        below = kept.below;
        agrees = kept.agrees;
        log_below = kept.log_below;
        linear = kept.linear;
      } in
      let i' : Inv x c env m₂ = record {
        expands = i.expands;
        below = tried.inv.below;
        agrees = tried.inv.agrees;
        log_below = tried.inv.log_below;
        linear = tried.inv.linear;
      } in
      let s' = hq env' (captured c) cf m₂ kept' ran' in
      let caught : Step x c c env m (q env' m₂) =
        Step-trans x env tried
          (Step-choices {bs = later_choices m₁.choices} (Step-borrowed still s' i')) in
      let passed : Step x c c env m m₂ = record {
        inv = i';
        next_le = tried.next_le;
        frame = tried.frame;
      } in
      elim (Bool-cases (first_choice m₁.choices)) [
        | inl e ↦ rw (e, choose) (subst (λ d. Step x c d env m m₂) (ok_injective last) passed)
        | inr e ↦
            rw (e, choose) (subst (λ d. Step x c d env m (q env' m₂)) (ok_injective last) caught)
      ]
    where
      env' : List ℕ
      env' = live env m.log
