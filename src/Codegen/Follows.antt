-- ===== src/Codegen/Follows.antt =====
-- src/compiler/codegen/expr.rs and src/compiler/analysis/verify.rs: how a step of the code generator follows a
-- check, and the steps on single variables.
use llmlang.Prelude.{
  ℕ, zero, suc, ◌≡◌, refl, sym, ap, subst, ◌∙◌, Text, codes, List, [], ◌∷◌, Option, none, some,
  length, get_elem?, set, Bool-cases, inl, inr, if◌then◌else◌,
}
use llmlang.Error.{Result, ok, err, bind}
use llmlang.Verify.{VariableState, VerificationContext, is_moved, is_borrowed, access, consume}
use llmlang.Verify.{Check, ◌>>◌}
use llmlang.Codegen.Stack.{StackItem}
use llmlang.Codegen.Agreement.{states}
use llmlang.Codegen.Builder.{Emit}
use llmlang.Codegen.Variables.{
  Frame, Step, Panic, return, next, emit, emitted, emit_on, read_item, access_item, take_item,
  move_item,
}

abbrev pub idle : Check
idle c = ok c

-- A check that only reads the context.
abbrev pub Keeps : Check → Type 0
Keeps p = (c c' : VerificationContext) → p c ≡ ok c' → c ≡ c'

module _ {V : Type 0} where
  abbrev state_of : Option (StackItem V) → Option VariableState
  state_of none = none
  state_of (some i) = some i.state

  states-get :
      (items : List (StackItem V)) (k : ℕ)
      → get_elem? (states items) k ≡ state_of (get_elem? items k)
  states-get [] k = refl
  states-get (i ∷ is) zero = refl
  states-get (i ∷ is) (suc k) = states-get is k

  abbrev moved_item : StackItem V → StackItem V
  moved_item i = record i { state = VariableState.moved }

  states-set :
      (items : List (StackItem V)) (k : ℕ) (i : StackItem V)
      → states (set items k (moved_item i)) ≡ set (states items) k VariableState.moved
  states-set [] k i = refl
  states-set (j ∷ is) zero i = refl
  states-set (j ∷ is) (suc k) i = ap (λ r. j.state ∷ r) (states-set is k i)

  length-set :
      (items : List (StackItem V)) (k : ℕ) (i : StackItem V) → length (set items k i) ≡ length items
  length-set [] k i = refl
  length-set (j ∷ is) zero i = refl
  length-set (j ∷ is) (suc k) i = ap suc (length-set is k i)

module _ {G V : Type 0} (expand_map : List (Text × ℕ)) where
  -- The context of the check stands for the variables of the code generator.
  abbrev pub Agrees : VerificationContext → Frame G V → Type 0
  Agrees c f = (c.expand_map ≡ expand_map) × (c.stack ≡ states f.stack)

  -- The step ends with variables that the context stands for, as many as before, or with a panic that is
  -- not about the states of variables.
  abbrev pub Fine : {A : Type 0} → VerificationContext → ℕ → Result Panic (A × Frame G V) → Type 0
  Fine c n (ok (_, f)) = Agrees c f × (length f.stack ≡ n)
  Fine c n (err (Panic.other _)) = Unit
  Fine c n (err _) = ⊥

  abbrev pub Follows : {A : Type 0} → Check → Step G V A → Type 0
  Follows p m =
      (c c' : VerificationContext) (f : Frame G V)
      → Agrees c f
      → p c ≡ ok c'
      → Fine c' (length f.stack) (m f)

  pub then-Fine :
      {A B : Type 0} (c c' : VerificationContext) (n n' : ℕ) (k : A → Step G V B)
      → ((a : A) (f : Frame G V) → Agrees c f → length f.stack ≡ n → Fine c' n' (k a f))
      → (r : Result Panic (A × Frame G V)) → Fine c n r
      → Fine c' n' (elim r [ err e ↦ err e | ok (a, f) ↦ k a f ])
  then-Fine c c' n n' k h (ok (a, f)) (agrees, same) = h a f agrees same
  then-Fine c c' n n' k h (err (Panic.other t)) fine = tt
  then-Fine c c' n n' k h (err _) fine = fine

  pub emitted-Fine :
      {A : Type 0} (c : VerificationContext) (f : Frame G V) (r : Result Text (A × G))
      → Agrees c f
      → Fine c (length f.stack) (emitted f r)
  emitted-Fine c f (ok (a, g)) h = (h, refl)
  emitted-Fine c f (err e) h = tt

  pub emit_on-Follows : {A : Type 0} (m : List (StackItem V) → Emit G A) → Follows idle (emit_on m)
  unfolding emit_on
  emit_on-Follows m c c' f h e =
      let same : c ≡ c' = cc in
      emitted-Fine c' f (m f.stack f.llvm) (subst (λ d. Agrees d f) same h)

  pub emit-Follows : {A : Type 0} (m : Emit G A) → Follows idle (emit m)
  unfolding emit
  emit-Follows m = emit_on-Follows (λ _. m)

  pub return-Follows : {A : Type 0} (a : A) → Follows idle (return a)
  unfolding return
  return-Follows a c c' f h e = let same : c ≡ c' = cc in (subst (λ d. Agrees d f) same h, refl)

  pub next-Fine :
      {A B : Type 0} (c : VerificationContext) (n : ℕ) (q : Check) (k : A → Step G V B)
      → ((a : A) → Follows q (k a))
      → (c' : VerificationContext) → q c ≡ ok c'
      → (r : Result Panic (A × Frame G V)) → Fine c n r
      → Fine c' n (elim r [ err e ↦ err e | ok (a, f) ↦ k a f ])
  next-Fine c n q k h c' e =
      then-Fine c c' n n k
        λ a f agrees same. subst (λ m. Fine c' m (k a f)) same (h a c c' f agrees e)

  pub next-Follows :
      {A B : Type 0} (p q : Check) (m : Step G V A) (k : A → Step G V B)
      → Follows p m
      → ((a : A) → Follows q (k a))
      → Follows (p >> q) (next m k)
  unfolding next
  next-Follows p q m k hm hk c c' f h e = at (p c) refl e
    where
      at :
          (r : Result Text VerificationContext)
          → p c ≡ r
          → bind r q ≡ ok c'
          → Fine c' (length f.stack) (next m k f)
      at (ok d) s e' = next-Fine d (length f.stack) q k hk c' e' (m f) (hm c d f h s)
      at (err x) s e' = absurd (cc (e'))

  pub end-Follows :
      {A B : Type 0} (p : Check) (m : Step G V A) (k : A → Step G V B)
      → Follows p m
      → ((a : A) → Follows idle (k a))
      → Follows p (next m k)
  unfolding next
  end-Follows p m k hm hk c c' f h e =
      next-Fine c' (length f.stack) idle k hk c' refl (m f) (hm c c' f h e)

  pub before-Follows :
      {A : Type 0} (q p : Check) (m : Step G V A) → Keeps q → Follows p m → Follows (q >> p) m
  before-Follows q p m keeps hm c c' f h e = at (q c) refl e
    where
      at :
          (r : Result Text VerificationContext)
          → q c ≡ r
          → bind r p ≡ ok c'
          → Fine c' (length f.stack) (m f)
      at (ok d) s e' = hm d c' f (subst (λ x. Agrees x f) (keeps c d s) h) e'
      at (err x) s e' = absurd (cc (e'))

  pub behind-Follows :
      {A : Type 0} (p q : Check) (m : Step G V A) → Keeps q → Follows p m → Follows (p >> q) m
  behind-Follows p q m keeps hm c c' f h e = at (p c) refl e
    where
      at :
          (r : Result Text VerificationContext)
          → p c ≡ r
          → bind r q ≡ ok c'
          → Fine c' (length f.stack) (m f)
      at (ok d) s e' = subst (λ x. Fine x (length f.stack) (m f)) (keeps d c' e') (hm c d f h s)
      at (err x) s e' = absurd (cc (e'))

  found :
      (c : VerificationContext) (f : Frame G V) (k : ℕ)
      → Agrees c f
      → get_elem? c.stack k ≡ state_of (get_elem? f.stack k)
  found c f k h = ap (λ ss. get_elem? ss k) h.1 ∙ states-get f.stack k

  pub access-Follows : (k : ℕ) → Follows (access k) (access_item k)
  unfolding access access_item read_item
  access-Follows k c c' f h e = at (get_elem? f.stack k) (get_elem? c.stack k) (found c f k h) e
    where
      at :
          (o : Option (StackItem V)) (so : Option VariableState)
          → so ≡ state_of o
          → (elim so as (λ _. Result Text VerificationContext) [
            | none ↦ err (codes "E003")
            | some s ↦ if is_moved s then err (codes "E004") else ok c
          ])
            ≡ ok c'
          → Fine c' (length f.stack) (elim o as (λ _. Result Panic (V × Frame G V)) [
            | none ↦ err Panic.e003
            | some item ↦ read_item item f
          ])
      at o none p q = absurd (cc (q))
      at none (some s) p q = absurd (cc (p))
      at (some i) (some s) p q = elim (Bool-cases (is_moved i.state)) [
        | inl m ↦ absurd (cc (p, q, m))
        | inr m ↦ let same : c ≡ c' = cc in rw m (subst (λ d. Agrees d f) same h, refl)
      ]

  pub consume-Follows : (k : ℕ) → Follows (consume k) (move_item k)
  unfolding consume move_item take_item
  consume-Follows k c c' f h e = at (get_elem? f.stack k) (get_elem? c.stack k) (found c f k h) e
    where
      taken : VerificationContext
      taken = record c { stack = set c.stack k VariableState.moved }

      at :
          (o : Option (StackItem V)) (so : Option VariableState)
          → so ≡ state_of o
          → (elim so as (λ _. Result Text VerificationContext) [
            | none ↦ err (codes "E003")
            | some s ↦
                if is_moved s
                then err (codes "E005")
                else if is_borrowed s
                then err (codes "E016")
                else ok taken
          ])
            ≡ ok c'
          → Fine c' (length f.stack) (elim o as (λ _. Result Panic (V × Frame G V)) [
            | none ↦ err Panic.e003
            | some item ↦ take_item k item f
          ])
      at o none p q = absurd (cc (q))
      at none (some s) p q = absurd (cc (p))
      at (some i) (some s) p q = elim (Bool-cases (is_moved i.state)) [
        | inl m ↦ absurd (cc (p, q, m))
        | inr m ↦ elim (Bool-cases (is_borrowed i.state)) [
          | inl b ↦ absurd (cc (p, q, m, b))
          | inr b ↦
              let same : taken ≡ c' = cc in
              rw (m, b)
                (
                  subst (λ d. Agrees d (record f { stack = set f.stack k (moved_item i) })) same
                      (
                        h.0,
                        ap (λ ss. set ss k VariableState.moved) h.1 ∙ sym (states-set f.stack k i),
                      ),
                  length-set f.stack k (moved_item i),
                )
        ]
      ]
