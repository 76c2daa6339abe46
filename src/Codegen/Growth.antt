-- ===== src/Codegen/Growth.antt =====
-- src/compiler/codegen/symbol.rs: what `infer_constraints` does to what is known of the parameters.
use llmlang.Prelude.{
  ℕ, zero, suc, ◌≡◌, refl, Bool, true, false, ◌||◌, Text, codes, text_eq, List, [], ◌∷◌, Option,
  none, some, if◌then◌else◌, length, set, pop, ltb, leb, lookup, Bool-cases, inl, inr,
}
use llmlang.Ast.{Expr, Exprs}
use llmlang.Analysis.{returns_ptr_with_stack}
use llmlang.Codegen.Pointers.{
  Ptrs, Infer, ◌>>◌, mark_at, mark_as_ptr, mark_first, mark_zip, count_args, first_of, mark_callee,
  mark_call, under_let, infer_constraints, infer_args,
}

-- As many entries, and every one that was set is set.
abbrev pub Raises : List Bool → List Bool → Type 0
Raises [] [] = Unit
Raises (x ∷ xs) (y ∷ ys) = (x ≡ true → y ≡ true) × Raises xs ys
Raises _ _ = ⊥

Raises-self : (xs : List Bool) → Raises xs xs
Raises-self [] = tt
Raises-self (x ∷ xs) = (λ h. h, Raises-self xs)

Raises-chain : (xs ys zs : List Bool) → Raises xs ys → Raises ys zs → Raises xs zs
Raises-chain [] [] zs h k = k
Raises-chain (x ∷ xs) (y ∷ ys) (z ∷ zs) h k = (λ e. k.0 (h.0 e), Raises-chain xs ys zs h.1 k.1)
Raises-chain (x ∷ xs) (y ∷ ys) [] h k = absurd k
Raises-chain [] (y ∷ ys) zs h k = absurd h
Raises-chain (x ∷ xs) [] zs h k = absurd h

Raises-set : (xs : List Bool) (i : ℕ) → Raises xs (set xs i true)
Raises-set [] i = tt
Raises-set (x ∷ xs) zero = (λ _. refl, Raises-self xs)
Raises-set (x ∷ xs) (suc i) = (λ h. h, Raises-set xs i)

Raises-pop : (x : Bool) (xs ys : List Bool) → Raises (x ∷ xs) ys → Raises xs (pop ys)
Raises-pop x xs [] h = absurd h
Raises-pop x xs (y ∷ ys) h = h.1

-- The step keeps the number of variables and of parameters, and forgets no pointer.
pub record Grows (p : Infer) : Type 0 where
  pub at : (s : Ptrs) → Raises s.stack (p s).stack × Raises s.params (p s).params

Grows-nothing : Grows (λ s. s)
Grows-nothing = record { at = λ s. (Raises-self s.stack, Raises-self s.params) }

Grows-then : (p q : Infer) → Grows p → Grows q → Grows (p >> q)
Grows-then p q hp hq = record {
  at = λ s.
      let (a, b) = hp.at s in
      let (c, d) = hq.at (p s) in
      (
        Raises-chain s.stack (p s).stack (q (p s)).stack a c,
        Raises-chain s.params (p s).params (q (p s)).params b d,
      );
}

Grows-if : (b : Bool) (p q : Infer) → Grows p → Grows q → Grows (if b then p else q)
Grows-if true p q hp hq = hp
Grows-if false p q hp hq = hq

mark_at-Grows : (idx : ℕ) → Grows (mark_at idx)
unfolding mark_at
mark_at-Grows idx = record {
  at = λ s. elim (Bool-cases (ltb idx (length s.stack))) [
    | inl e ↦ rw (e, mark_at) (Raises-set s.stack idx, Raises-set s.params _)
    | inr e ↦ rw (e, mark_at) (Raises-self s.stack, Raises-self s.params)
  ];
}

mark-Grows : (e : Expr) → Grows (mark_as_ptr e)
unfolding mark_as_ptr
mark-Grows (Expr.de_bruijn idx) = mark_at-Grows idx
mark-Grows (Expr.move e) = mark-Grows e
mark-Grows (Expr.borrow e) = mark-Grows e
mark-Grows (Expr.mut_borrow e) = mark-Grows e
mark-Grows _ = Grows-nothing

first-Grows : (n : ℕ) (args : Exprs) → Grows (mark_first n args)
unfolding mark_first
first-Grows zero args = Grows-nothing
first-Grows (suc n) Exprs.nil = Grows-nothing
first-Grows (suc n) (Exprs.cons e es) = Grows-then _ _ (mark-Grows e) (first-Grows n es)

zip-Grows : (args : Exprs) (ptrs : List Bool) → Grows (mark_zip args ptrs)
unfolding mark_zip
zip-Grows (Exprs.cons e es) (true ∷ ptrs) = Grows-then _ _ (mark-Grows e) (zip-Grows es ptrs)
zip-Grows (Exprs.cons e es) (false ∷ ptrs) = zip-Grows es ptrs
zip-Grows (Exprs.cons e es) [] = Grows-nothing
zip-Grows Exprs.nil ptrs = Grows-nothing

module _ (resolve : Text → Text) (fn_returns_ptr : List (Text × Bool))
    (fn_param_ptrs : List (Text × List Bool)) where
  callee-Grows :
      (name : Text) (args : Exprs)
      → Grows (mark_callee resolve fn_returns_ptr fn_param_ptrs name args)
  unfolding mark_callee
  callee-Grows name args =
      Grows-if
        (text_eq (resolve name) (codes "verify") || text_eq (resolve name) (codes "crypto_verify"))
        _ _ (Grows-if (leb 3 (count_args args)) _ _ (first-Grows 3 args) Grows-nothing)
        (Grows-if
          (text_eq (resolve name) (codes "sign") || text_eq (resolve name) (codes "crypto_sign")) _
          _ (Grows-if (leb 2 (count_args args)) _ _ (first-Grows 2 args) Grows-nothing)
          (known (first_of (lookup (resolve name) fn_param_ptrs) (lookup name fn_param_ptrs))))
    where
      known :
          (o : Option (List Bool))
          → Grows (elim o [ none ↦ λ s. s | some ptrs ↦ mark_zip args ptrs ])
      known none = Grows-nothing
      known (some ptrs) = zip-Grows args ptrs

  call-Grows :
      (f : Expr) (args : Exprs) → Grows (mark_call resolve fn_returns_ptr fn_param_ptrs f args)
  unfolding mark_call
  call-Grows (Expr.identifier name) args = callee-Grows name args
  call-Grows _ args = Grows-nothing

  let-Grows :
      (v : Expr) (p : Infer) → Grows p → Grows (under_let resolve fn_returns_ptr fn_param_ptrs v p)
  unfolding under_let
  let-Grows v p h = record {
    at = λ s.
        let x = returns_ptr_with_stack v s.stack fn_returns_ptr in
        let (a, b) = h.at (record s { stack = x ∷ s.stack }) in
        (Raises-pop x s.stack (p (record s { stack = x ∷ s.stack })).stack a, b);
  }

  mutual
    unfolding infer_constraints

    infer-Grows : (e : Expr) → Grows (infer_constraints resolve fn_returns_ptr fn_param_ptrs e)
    infer-Grows (Expr.let_in _ v b) = Grows-then _ _ (infer-Grows v) (let-Grows v _ (infer-Grows b))
    infer-Grows (Expr.apply f args) =
        Grows-then _ _ (infer-Grows f) (Grows-then _ _ (args-Grows args) (call-Grows f args))
    infer-Grows (Expr.seq l r) = Grows-then _ _ (infer-Grows l) (infer-Grows r)
    infer-Grows (Expr.if_else c t f) =
        Grows-then _ _ (infer-Grows c) (Grows-then _ _ (infer-Grows t) (infer-Grows f))
    infer-Grows (Expr.move e) = infer-Grows e
    infer-Grows (Expr.borrow e) = infer-Grows e
    infer-Grows (Expr.mut_borrow e) = infer-Grows e
    infer-Grows (Expr.trap t f) = Grows-then _ _ (infer-Grows t) (infer-Grows f)
    infer-Grows (Expr.cat l r) =
        Grows-then _ _ (mark-Grows l)
          (Grows-then _ _ (mark-Grows r) (Grows-then _ _ (infer-Grows l) (infer-Grows r)))
    infer-Grows (Expr.sub s b l) =
        Grows-then _ _ (mark-Grows s)
          (Grows-then _ _ (infer-Grows s) (Grows-then _ _ (infer-Grows b) (infer-Grows l)))
    infer-Grows (Expr.len e) = Grows-then _ _ (mark-Grows e) (infer-Grows e)
    infer-Grows (Expr.loc s p) =
        Grows-then _ _ (mark-Grows s)
          (Grows-then _ _ (mark-Grows p) (Grows-then _ _ (infer-Grows s) (infer-Grows p)))
    infer-Grows (Expr.reg s p) =
        Grows-then _ _ (mark-Grows s)
          (Grows-then _ _ (mark-Grows p) (Grows-then _ _ (infer-Grows s) (infer-Grows p)))
    infer-Grows (Expr.split s d i) = Grows-then _ _ (mark-Grows s) (
        Grows-then _ _ (mark-Grows d)
          (Grows-then _ _ (infer-Grows s) (Grows-then _ _ (infer-Grows d) (infer-Grows i))))
    infer-Grows (Expr.write h s) =
        Grows-then _ _ (mark-Grows h)
          (Grows-then _ _ (mark-Grows s) (Grows-then _ _ (infer-Grows h) (infer-Grows s)))
    infer-Grows (Expr.get i _ k) =
        Grows-then _ _ (mark-Grows i) (Grows-then _ _ (infer-Grows i) (infer-Grows k))
    infer-Grows (Expr.set i _ k v) =
        Grows-then _ _ (mark-Grows i)
          (Grows-then _ _ (infer-Grows i) (Grows-then _ _ (infer-Grows k) (infer-Grows v)))
    infer-Grows (Expr.unpack e _) = Grows-then _ _ (mark-Grows e) (infer-Grows e)
    infer-Grows (Expr.pack e) = Grows-then _ _ (mark-Grows e) (infer-Grows e)
    infer-Grows (Expr.map i _ f) =
        Grows-then _ _ (mark-Grows i) (Grows-then _ _ (infer-Grows i) (infer-Grows f))
    infer-Grows (Expr.filter i f) =
        Grows-then _ _ (mark-Grows i) (Grows-then _ _ (infer-Grows i) (infer-Grows f))
    infer-Grows (Expr.http_client m u b) = Grows-then _ _ (mark-Grows m) (
        Grows-then _ _ (mark-Grows u) (
          Grows-then _ _ (mark-Grows b)
            (Grows-then _ _ (infer-Grows m) (Grows-then _ _ (infer-Grows u) (infer-Grows b)))))
    infer-Grows (Expr.http_server _ arg) = Grows-then _ _ (mark-Grows arg) (infer-Grows arg)
    infer-Grows (Expr.file_open p m) =
        Grows-then _ _ (mark-Grows p)
          (Grows-then _ _ (mark-Grows m) (Grows-then _ _ (infer-Grows p) (infer-Grows m)))
    infer-Grows _ = Grows-nothing

    args-Grows : (es : Exprs) → Grows (infer_args resolve fn_returns_ptr fn_param_ptrs es)
    args-Grows Exprs.nil = Grows-nothing
    args-Grows (Exprs.cons e es) = Grows-then _ _ (infer-Grows e) (args-Grows es)

  -- The inference over a body leaves the number of variables and of parameters as it was, and what was
  -- known to hold a pointer is known to hold one afterwards.
  pub infer_constraints-Raises :
      (e : Expr) (s : Ptrs)
      → Raises s.stack (infer_constraints resolve fn_returns_ptr fn_param_ptrs e s).stack
        × Raises s.params (infer_constraints resolve fn_returns_ptr fn_param_ptrs e s).params
  infer_constraints-Raises e s = (infer-Grows e).at s
