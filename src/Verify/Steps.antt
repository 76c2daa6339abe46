-- ===== src/Verify/Steps.antt =====
-- Each piece of the check goes with its piece of a run.
use mathlib.Core.Path.{subst}
use llmlang.Prelude.{
  ℕ, ◌≡◌, refl, sym, ap, ◌∙◌, true, false, not, Text, List, ◌∷◌, inl, inr, some, length, get_elem?,
  set, lookup, arith, Option-cases,
}
use llmlang.Error.{ok, bind, bind-eq-ok}
use llmlang.Verify.Checks.{
  VariableState, VerificationContext, Check, is_moved, is_borrowed, access, consume, on_expand,
  from_top,
}
use llmlang.Verify.Machine.{Event, Machine, moved_in, Run, log_at, log_expand}
use llmlang.Verify.Invariant.{
  Inv, moved_in-move_ne, movable, movable-at, movable-set, available_of, Step, Sound, Below-get,
  Agrees-get, Agrees-length, Agrees-set, Agrees-transfer,
}

module _ (x : List (Text × ℕ)) (env : List ℕ) where
  pub Step-refl : {c : VerificationContext} {m : Machine} → Inv x c env m → Step x c c env m m
  Step-refl v = record { inv = v; next_le = omega arith; frame = λ j h f. (f, refl) }

  pub Step-trans :
      {a b c : VerificationContext} {m n k : Machine}
      → Step x a b env m n
      → Step x b c env n k
      → Step x a c env m k
  Step-trans s t = record {
    inv = t.inv;
    next_le = omega (arith, s.next_le, t.next_le);
    frame = λ j h f.
        let here = s.frame j h f in
        let there = t.frame j (omega (arith, s.next_le)) here.0 in (there.0, there.1 ∙ here.1);
  }

  pub Sound-seq :
      (v w : Check) (p q : Run)
      → Sound x env v p
      → Sound x env w q
      → Sound x env (λ c. bind (v c) w) (λ m. q (p m))
  Sound-seq v w p q hv hw c c' m i h =
      let (b, e, f) = bind-eq-ok (v c) w h in
      let s = hv c b m i e in Step-trans s (hw b c' (p m) s.inv f)

  -- A test that passes leaves the context alone.
  pub Sound-test :
      (v : Check) → ((c c' : VerificationContext) → v c ≡ ok c' → c ≡ c') → Sound x env v (λ m. m)
  Sound-test v h c c' m i e = subst (λ d. Step x c d env m m) (h c c' e) (Step-refl i)

  pub access-Sound : (k : ℕ) → Sound x env (access k) (log_at Event.touch env k)
  unfolding access log_at moved_in
  access-Sound k c c' m i h = elim (Option-cases (get_elem? c.stack k)) [
    | inl e ↦ absurd (let bad = rw (e, access) at h in cc)
    | inr (s, e) ↦
        let (j, g, mv, _) = Agrees-get c.stack env m.log k i.agrees e in
        let (same, owned) = passed s e in
        let lt = Below-get env k i.below g in
        let m' : Machine = record m { log = Event.touch j ∷ m.log } in
        let reach : Step x c c' env m m' =
          subst (λ d. Step x c d env m m') same
            (record {
              inv = record {
                expands = i.expands;
                below = i.below;
                agrees =
                    Agrees-transfer m.next c.stack env m.log (Event.touch j ∷ m.log) i.below
                      (λ _ _. refl) i.agrees;
                log_below = (lt, i.log_below);
                linear = (sym mv ∙ owned, i.linear);
              };
              next_le = omega arith;
              frame = λ _ _ f. (f, refl);
            }) in
        rw (g, log_at) reach
  ]
    where
      passed : (s : VariableState) → get_elem? c.stack k ≡ some s → (c ≡ c') × (is_moved s ≡ false)
      passed s e = ground arith

  pub consume-Sound : (k : ℕ) → Sound x env (consume k) (log_at Event.move env k)
  unfolding consume log_at
  consume-Sound k c c' m i h = elim (Option-cases (get_elem? c.stack k)) [
    | inl e ↦ absurd (let bad = rw (e, consume) at h in cc)
    | inr (s, e) ↦
        let (j, g, mv, cap) = Agrees-get c.stack env m.log k i.agrees e in
        let (same, owned, free) = passed s e in
        let lt = Below-get env k i.below g in
        let here : movable j c.stack env ≡ true =
          movable-at c.stack env k j
            (e ∙ ap some (available_of s owned (cap ∙ ap not (sym mv ∙ owned)) free)) g in
        let m' : Machine = record m { log = Event.move j ∷ m.log } in
        let reach : Step x c c' env m m' =
          subst (λ d. Step x c d env m m') same
            (record {
              inv = record {
                expands = i.expands;
                below = i.below;
                agrees = Agrees-set m.next c.stack env m.log k j i.below g i.agrees;
                log_below = (lt, i.log_below);
                linear = (sym mv ∙ owned, i.linear);
              };
              next_le = omega arith;
              frame = λ a _ f. (
                movable-set a c.stack env k f,
                moved_in-move_ne j a m.log
                    (λ q. let clash = subst (λ z. movable z c.stack env ≡ false) q f in cc),
              );
            }) in
        rw (g, log_at) reach
  ]
    where
      passed :
          (s : VariableState)
          → get_elem? c.stack k ≡ some s
          → (record c { stack = set c.stack k VariableState.moved } ≡ c')
            × (is_moved s ≡ false)
            × (is_borrowed s ≡ false)
      passed s e = ground arith

  pub on_expand-Sound :
      (v : ℕ → Check) (event : ℕ → Event) (name : Text)
      → ((k : ℕ) → Sound x env (v k) (log_at event env k))
      → Sound x env (on_expand v name) (log_expand event x env name)
  unfolding on_expand log_expand
  on_expand-Sound v event name hv c c' m i h = elim (Option-cases (lookup name c.expand_map)) [
    | inl e ↦ absurd (let bad = rw (e, on_expand) at h in cc)
    | inr (index, e) ↦
        let found : lookup name x ≡ some index = ap (lookup name) (sym i.expands) ∙ e in
        let k = from_top (length c.stack) index in
        let depth = Agrees-length c.stack env m.log i.agrees in
        let inner : v k c ≡ ok c' = rw (e, on_expand) at h in
        let step = hv k c c' m i inner in
        rw (found, log_expand)
          (subst (λ d. Step x c c' env m (log_at event env (from_top d index) m)) depth step)
  ]
