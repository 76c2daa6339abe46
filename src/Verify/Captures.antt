-- ===== src/Verify/Captures.antt =====
-- The variables of a `let` and of a trap: what stands for them in the check and in a run.
use llmlang.Prelude.{
  ℕ, ◌<◌, ◌≡◌, refl, sym, ap, ◌∙◌, true, false, not, List, [], ◌∷◌, inl, inr, pop, arith,
  Bool-cases,
}
use llmlang.Verify.Checks.{
  VariableState, is_moved, is_captured, states_eq, state_eq, captured_states,
}
use llmlang.Verify.Machine.{Event, moved_in, live}
use llmlang.Verify.Invariant.{Below, Agrees, movable, Below-weaken}

pub Agrees-pop :
    (ss : List VariableState) (i : ℕ) (is : List ℕ) (log : List Event)
    → Agrees ss (i ∷ is) log
    → Agrees (pop ss) is log
Agrees-pop [] i is log a = absurd a
Agrees-pop (s ∷ ss) i is log a = a.2

pub movable-pop :
    (j i : ℕ) (ss : List VariableState) (is : List ℕ)
    → movable j ss (i ∷ is) ≡ false
    → movable j (pop ss) is ≡ false
unfolding movable
movable-pop j i [] is h = refl
movable-pop j i (VariableState.available ∷ ss) is h = ground arith
movable-pop j i (_ ∷ ss) is h = h

pub movable-fresh :
    (j n : ℕ) (ss : List VariableState) (is : List ℕ)
    → j < n
    → movable j ss is ≡ false
    → movable j (VariableState.available ∷ ss) (n ∷ is) ≡ false
unfolding movable
movable-fresh j n ss is lt h = ground arith

pub states_eq→eq : (ss ts : List VariableState) → states_eq ss ts ≡ true → ss ≡ ts
unfolding states_eq state_eq
states_eq→eq [] [] h = refl
states_eq→eq (s ∷ ss) (t ∷ ts) h = ground (arith, states_eq→eq ss ts)
states_eq→eq [] (t ∷ ts) h = cc
states_eq→eq (s ∷ ss) [] h = cc

pub Agrees-captured :
    (ss : List VariableState) (is : List ℕ) (log : List Event)
    → Agrees ss is log
    → Agrees (captured_states ss) (live is log) log
unfolding captured_states live is_captured is_moved
Agrees-captured [] [] log a = tt
Agrees-captured (s ∷ ss) (i ∷ is) log a = elim (Bool-cases (moved_in i log)) [
  | inl gone ↦ rw gone (rw (a.1 ∙ ap not gone) (Agrees-captured ss is log a.2))
  | inr owned ↦
      rw owned
        (rw (a.1 ∙ ap not owned) (sym owned, ap not (sym owned), Agrees-captured ss is log a.2))
]
Agrees-captured (s ∷ ss) [] log a = absurd a
Agrees-captured [] (i ∷ is) log a = absurd a

pub Below-live : (n : ℕ) (is : List ℕ) (log : List Event) → Below n is → Below n (live is log)
unfolding live
Below-live n [] log b = tt
Below-live n (i ∷ is) log b = elim (Bool-cases (moved_in i log)) [
  | inl gone ↦ rw gone (Below-weaken (live is log) (omega arith) (Below-live i is log b.1))
  | inr owned ↦ rw owned (b.0, Below-live i is log b.1)
]

pub movable-captured :
    (j : ℕ) (ss : List VariableState) (is : List ℕ) → movable j (captured_states ss) is ≡ false
unfolding movable captured_states is_captured
movable-captured j [] is = refl
movable-captured j (VariableState.available ∷ ss) [] = refl
movable-captured j (VariableState.available ∷ ss) (i ∷ is) = movable-captured j ss is
movable-captured j (VariableState.borrowed ∷ ss) [] = refl
movable-captured j (VariableState.borrowed ∷ ss) (i ∷ is) = movable-captured j ss is
movable-captured j (VariableState.moved ∷ ss) is = movable-captured j ss is
movable-captured j (VariableState.mut_borrowed ∷ ss) is = movable-captured j ss is
