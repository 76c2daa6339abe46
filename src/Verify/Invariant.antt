-- ===== src/Verify/Invariant.antt =====
-- How the context of the check stands for the state of a run, and that it does so after an access
-- and after a move.
use llmlang.Prelude.{
  ℕ, zero, suc, ◌<◌, ◌≤◌, ◌≡◌, ◌≢◌, refl, sym, ap, ◌∙◌, Bool, true, false, not, ◌||◌, Text, List,
  [], ◌∷◌, some, ◌==◌, length, get_elem?, set, arith,
}
use llmlang.Error.{ok}
use llmlang.Verify.Checks.{
  VariableState, VerificationContext, Check, is_moved, is_borrowed, is_captured,
}
use llmlang.Verify.Machine.{Event, slot, Machine, moved_in, IsLinear, Run}

-- The slots of the variables fall from the innermost outwards, all below `n`.
abbrev pub Below : ℕ → List ℕ → Type 0
Below n [] = Unit
Below n (i ∷ is) = (i < n) × Below i is

-- A variable is moved in the check exactly if its slot is moved in the log, and is captured by a
-- trap exactly if not.
abbrev pub Agrees : List VariableState → List ℕ → List Event → Type 0
Agrees [] [] log = Unit
Agrees (s ∷ ss) (i ∷ is) log =
    (is_moved s ≡ moved_in i log) × (is_captured s ≡ not (moved_in i log)) × Agrees ss is log
Agrees _ _ log = ⊥

abbrev pub LogBelow : ℕ → List Event → Type 0
LogBelow n [] = Unit
LogBelow n (e ∷ log) = (slot e < n) × LogBelow n log

pub record Inv (x : List (Text × ℕ)) (c : VerificationContext) (env : List ℕ) (m : Machine)
    : Type 0 where
  pub expands : c.expand_map ≡ x
  pub below : Below m.next env
  pub agrees : Agrees c.stack env m.log
  pub log_below : LogBelow m.next m.log
  pub linear : IsLinear m.log

-- The slot stands for a variable that may be moved.
unfoldable pub movable : ℕ → List VariableState → List ℕ → Bool
movable j (VariableState.available ∷ ss) (i ∷ is) = i == j || movable j ss is
movable j (_ ∷ ss) (i ∷ is) = movable j ss is
movable j _ _ = false

-- What holds of one step of the check and the run that goes with it: the invariant is kept, and a
-- slot in use that the check could not move is not moved.
pub record Step (x : List (Text × ℕ)) (c c' : VerificationContext) (env : List ℕ) (m m' : Machine)
    : Type 0 where
  pub inv : Inv x c' env m'
  pub next_le : m.next ≤ m'.next
  pub frame :
      (j : ℕ)
      → j < m.next
      → movable j c.stack env ≡ false
      → (movable j c'.stack env ≡ false) × (moved_in j m'.log ≡ moved_in j m.log)

abbrev pub Sound : List (Text × ℕ) → List ℕ → Check → Run → Type 0
Sound x env v p =
    (c c' : VerificationContext) (m : Machine)
    → Inv x c env m
    → v c ≡ ok c'
    → Step x c c' env m (p m)

pub Below-weaken : {n k : ℕ} (env : List ℕ) → n ≤ k → Below n env → Below k env
Below-weaken [] h b = tt
Below-weaken (i ∷ is) h b = (omega arith, b.1)

pub LogBelow-weaken : {n k : ℕ} (log : List Event) → n ≤ k → LogBelow n log → LogBelow k log
LogBelow-weaken [] h b = tt
LogBelow-weaken (e ∷ log) h b = (omega arith, LogBelow-weaken log h b.1)

pub LogBelow-fresh : (n : ℕ) (log : List Event) → LogBelow n log → moved_in n log ≡ false
unfolding moved_in
LogBelow-fresh n [] b = refl
LogBelow-fresh n (Event.touch j ∷ log) b = LogBelow-fresh n log b.1
LogBelow-fresh n (Event.move j ∷ log) b = ground (arith, LogBelow-fresh n log b.1)

pub Below-get : {n i : ℕ} (env : List ℕ) (k : ℕ) → Below n env → get_elem? env k ≡ some i → i < n
Below-get [] k b e = cc
Below-get (j ∷ is) zero b e = ground arith
Below-get (j ∷ is) (suc k) b e = omega (arith, Below-get is k b.1 e)

-- The slot of a variable that is in the check's stack.
pub Agrees-get :
    (ss : List VariableState) (env : List ℕ) (log : List Event) (k : ℕ) {s : VariableState}
    → Agrees ss env log
    → get_elem? ss k ≡ some s
    → (i : ℕ) × (get_elem? env k ≡ some i)
      × (is_moved s ≡ moved_in i log)
      × (is_captured s ≡ not (moved_in i log))
Agrees-get [] [] log k a e = cc
Agrees-get (t ∷ ss) (i ∷ is) log zero a e = (i, refl, ground arith, ground arith)
Agrees-get (t ∷ ss) (i ∷ is) log (suc k) a e = Agrees-get ss is log k a.2 e
Agrees-get (t ∷ ss) [] log k a e = absurd a
Agrees-get [] (i ∷ is) log k a e = absurd a

pub Agrees-length :
    (ss : List VariableState) (env : List ℕ) (log : List Event)
    → Agrees ss env log
    → length ss ≡ length env
Agrees-length [] [] log a = refl
Agrees-length (t ∷ ss) (i ∷ is) log a = ap suc (Agrees-length ss is log a.2)
Agrees-length (t ∷ ss) [] log a = absurd a
Agrees-length [] (i ∷ is) log a = absurd a

-- Logs that tell the same of the slots in use agree with the same states.
pub Agrees-transfer :
    (n : ℕ) (ss : List VariableState) (env : List ℕ) (log log' : List Event)
    → Below n env
    → ((j : ℕ) → j < n → moved_in j log' ≡ moved_in j log)
    → Agrees ss env log
    → Agrees ss env log'
Agrees-transfer n [] [] log log' b same a = tt
Agrees-transfer n (t ∷ ss) (i ∷ is) log log' b same a = (
  a.0 ∙ sym (same i b.0),
  a.1 ∙ ap not (sym (same i b.0)),
  Agrees-transfer i ss is log log' b.1 (λ j h. same j (omega arith)) a.2,
)
Agrees-transfer n (t ∷ ss) [] log log' b same a = absurd a
Agrees-transfer n [] (i ∷ is) log log' b same a = absurd a

pub moved_in-move_ne :
    (i j : ℕ) (log : List Event) → j ≢ i → moved_in j (Event.move i ∷ log) ≡ moved_in j log
unfolding moved_in
moved_in-move_ne i j log h = ground arith

-- Moving the variable at `k` in the check and its slot in the log.
pub Agrees-set :
    (n : ℕ) (ss : List VariableState) (env : List ℕ) (log : List Event) (k i : ℕ)
    → Below n env
    → get_elem? env k ≡ some i
    → Agrees ss env log
    → Agrees (set ss k VariableState.moved) env (Event.move i ∷ log)
unfolding moved_in is_moved is_captured
Agrees-set n [] [] log k i b e a = tt
Agrees-set n (t ∷ ss) (j ∷ is) log zero i b e a = (
  ground arith,
  ground arith,
  Agrees-transfer j ss is log (Event.move i ∷ log) b.1 (λ h lt. ground arith) a.2,
)
Agrees-set n (t ∷ ss) (j ∷ is) log (suc k) i b e a =
    let lt = Below-get is k b.1 e in
    (ground arith, ground arith, Agrees-set j ss is log k i b.1 e a.2)
Agrees-set n (t ∷ ss) [] log k i b e a = absurd a
Agrees-set n [] (j ∷ is) log k i b e a = absurd a

pub movable-at :
    (ss : List VariableState) (is : List ℕ) (k i : ℕ)
    → get_elem? ss k ≡ some VariableState.available
    → get_elem? is k ≡ some i
    → movable i ss is ≡ true
unfolding movable
movable-at [] is k i e g = cc
movable-at (s ∷ ss) [] k i e g = cc
movable-at (VariableState.available ∷ ss) (j ∷ is) zero i e g = ground arith
movable-at (_ ∷ ss) (j ∷ is) zero i e g = cc
movable-at (VariableState.available ∷ ss) (j ∷ is) (suc k) i e g =
    ground (arith, movable-at ss is k i e g)
movable-at (_ ∷ ss) (j ∷ is) (suc k) i e g = movable-at ss is k i e g

pub movable-set :
    (j : ℕ) (ss : List VariableState) (is : List ℕ) (k : ℕ)
    → movable j ss is ≡ false
    → movable j (set ss k VariableState.moved) is ≡ false
unfolding movable
movable-set j [] is k h = h
movable-set j (VariableState.available ∷ ss) (i ∷ is) zero h = ground arith
movable-set j (_ ∷ ss) (i ∷ is) zero h = h
movable-set j (VariableState.available ∷ ss) (i ∷ is) (suc k) h =
    ground (arith, movable-set j ss is k)
movable-set j (_ ∷ ss) (i ∷ is) (suc k) h = movable-set j ss is k h
movable-set j (VariableState.available ∷ ss) [] zero h = refl
movable-set j (VariableState.available ∷ ss) [] (suc k) h = refl
movable-set j (_ ∷ ss) [] zero h = refl
movable-set j (_ ∷ ss) [] (suc k) h = refl

-- A variable that may be moved is available.
pub available_of :
    (s : VariableState)
    → is_moved s ≡ false
    → is_captured s ≡ true
    → is_borrowed s ≡ false
    → s ≡ VariableState.available
unfolding is_moved is_captured is_borrowed
available_of VariableState.available a b c = refl
available_of _ a b c = cc
