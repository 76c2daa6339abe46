-- ===== src/Verify/Checks.antt =====
-- src/compiler/analysis/verify.rs, what the check does at single nodes, with `VariableState` of
-- src/compiler/codegen/mod.rs: the ownership check of function bodies. A check threads
-- its context, where the code mutates one; `err` carries the code that the function returns. The two
-- stacks of a context are kept with their tops first.
use llmlang.Prelude.{
  ℕ, ◌-◌, Bool, true, false, Text, codes, text_eq, List, [], ◌∷◌, ◌++◌, Option, none, some, ltb,
  if◌then◌else◌, length, get_elem?, set, pop, any, lookup, contains_key,
}
use llmlang.Token.{Token}
use llmlang.Ast.{Expr}
use llmlang.Error.{Result, ok, err, bind}

pub data VariableState : Type 0 where
  available moved borrowed mut_borrowed : VariableState

pub record VerificationContext : Type 0 where
  pub shapes : List (Text × List Text)
  pub functions : List (Text × ℕ)
  pub stack : List VariableState
  pub stack_shapes : List (Option Text)
  pub expand_map : List (Text × ℕ)

-- A call that may fail and mutates its context.
abbrev pub Check : Type 0
Check = VerificationContext → Result Text VerificationContext

infixl 5 ◌>>◌
abbrev pub ◌>>◌ : Check → Check → Check
p >> q = λ c. bind (p c) q

unfoldable pub is_moved : VariableState → Bool
is_moved VariableState.moved = true
is_moved _ = false

unfoldable pub is_borrowed : VariableState → Bool
is_borrowed VariableState.borrowed = true
is_borrowed _ = false

unfoldable pub infer_shape : Expr → List (Option Text) → Option Text
infer_shape (Expr.new name _) ss = some name
infer_shape (Expr.unpack _ name) ss = some name
infer_shape (Expr.map e _ _) ss = infer_shape e ss
infer_shape (Expr.filter e _) ss = infer_shape e ss
infer_shape (Expr.de_bruijn idx) ss = elim (get_elem? ss idx) [ none ↦ none | some s ↦ s ]
infer_shape (Expr.move inner) ss = infer_shape inner ss
infer_shape (Expr.borrow inner) ss = infer_shape inner ss
infer_shape (Expr.mut_borrow inner) ss = infer_shape inner ss
infer_shape _ ss = none

unfoldable pub unknown_identifier : Text → Text
unknown_identifier name = codes "E013: Unknown identifier " ++ name

-- An access to the variable with this index from the top of the stack.
unfoldable pub access : ℕ → Check
unfolding is_moved
access index c = elim (get_elem? c.stack index) [
  | none ↦ err (codes "E003")
  | some s ↦ if is_moved s then err (codes "E004") else ok c
]

-- A move of the variable with this index from the top of the stack.
unfoldable pub consume : ℕ → Check
unfolding is_moved is_borrowed
consume index c = elim (get_elem? c.stack index) [
  | none ↦ err (codes "E003")
  | some s ↦
      if is_moved s
      then err (codes "E005")
      else if is_borrowed s
      then err (codes "E016")
      else ok (record c { stack = set c.stack index VariableState.moved })
]

-- An index that counts from the bottom of the stack, as `expand_map` holds it, counted from the top;
-- past the top it is out of bounds.
unfoldable pub from_top : ℕ → ℕ → ℕ
from_top depth index = if ltb index depth then depth - 1 - index else depth

unfoldable pub on_expand : (ℕ → Check) → Text → Check
unfolding from_top lookup unknown_identifier
on_expand k name c = elim (lookup name c.expand_map) [
  | none ↦ err (unknown_identifier name)
  | some index ↦ k (from_top (length c.stack) index) c
]

unfoldable pub has_field : VerificationContext → Option Text → Text → Bool
unfolding lookup text_eq
has_field c (some shape_name) field = elim (lookup shape_name c.shapes) [
  | none ↦ false
  | some fields ↦ any (λ f. text_eq f field) fields
]
has_field c none field = any (λ (_, fields). any (λ f. text_eq f field) fields) c.shapes

unfoldable pub check_field : Expr → Text → Check
unfolding has_field infer_shape
check_field instance_expr field c =
    if has_field c (infer_shape instance_expr c.stack_shapes) field
    then ok c
    else err (codes "E007")

unfoldable pub check_shape : Text → Check
unfolding contains_key
check_shape name c = if contains_key name c.shapes then ok c else err (codes "E006")

unfoldable pub check_inferred : Expr → Check
unfolding check_shape infer_shape
check_inferred e c = elim (infer_shape e c.stack_shapes) [
  | none ↦ err (codes "E006")
  | some name ↦ check_shape name c
]

-- The field of a `map`, in the fields of the shape that was inferred.
unfoldable pub check_mapped : Expr → Text → Check
unfolding check_inferred check_field
check_mapped e field = do check_inferred e; check_field e field

-- `map` and `flt` look only at a function that is named.
unfoldable pub check_function : Expr → Check
unfolding contains_key
check_function (Expr.identifier name) c =
    if contains_key name c.functions then ok c else err (codes "E010")
check_function _ c = ok c

unfoldable pub check_callee : Expr → Check
unfolding contains_key
check_callee (Expr.identifier name) c =
    if contains_key name c.functions then ok c else err (codes "E010")
check_callee _ c = err (codes "E012")

unfoldable pub is_operator : Token → Bool
is_operator Token.add = true
is_operator Token.sub = true
is_operator Token.mul = true
is_operator Token.div = true
is_operator Token.eq = true
is_operator Token.lt = true
is_operator Token.gt = true
is_operator Token.bit_and = true
is_operator Token.bit_or = true
is_operator Token.bit_xor = true
is_operator _ = false

unfoldable pub check_operator : Token → Check
unfolding is_operator
check_operator op c = if is_operator op then ok c else err (codes "E008")

unfoldable pub check_identifier : Text → Check
unfolding contains_key unknown_identifier
check_identifier name c =
    if contains_key name c.functions then ok c else err (unknown_identifier name)

unfoldable pub push : Option Text → VerificationContext → VerificationContext
push s c = record c { stack = VariableState.available ∷ c.stack; stack_shapes = s ∷ c.stack_shapes }

unfoldable pub pop_variable : VerificationContext → VerificationContext
pop_variable c = record c { stack = pop c.stack; stack_shapes = pop c.stack_shapes }

-- The body of a `let`, checked under its new variable.
unfoldable pub check_let : Expr → Check → Check
unfolding infer_shape push pop_variable
check_let val_expr body c =
    bind (body (push (infer_shape val_expr c.stack_shapes) c)) λ c'. ok (pop_variable c')

unfoldable pub state_eq : VariableState → VariableState → Bool
state_eq VariableState.available VariableState.available = true
state_eq VariableState.moved VariableState.moved = true
state_eq VariableState.borrowed VariableState.borrowed = true
state_eq VariableState.mut_borrowed VariableState.mut_borrowed = true
state_eq _ _ = false

unfoldable pub states_eq : List VariableState → List VariableState → Bool
unfolding state_eq
states_eq [] [] = true
states_eq (s ∷ ss) (t ∷ ts) = if state_eq s t then states_eq ss ts else false
states_eq _ _ = false

-- Both branches start from the states behind the condition, and end in the same states.
unfoldable pub check_branches : Check → Check → Check
unfolding states_eq
check_branches then_branch else_branch c = bind (then_branch c) λ ct.
    bind (else_branch (record ct { stack = c.stack; stack_shapes = c.stack_shapes }))
      λ ce. if states_eq ct.stack ce.stack then ok ce else err (codes "E009")

-- `Available` or `Borrowed`
unfoldable pub is_captured : VariableState → Bool
is_captured VariableState.available = true
is_captured VariableState.borrowed = true
is_captured _ = false

unfoldable pub captured_states : List VariableState → List VariableState
unfolding is_captured
captured_states [] = []
captured_states (s ∷ ss) =
    if is_captured s then VariableState.borrowed ∷ captured_states ss else captured_states ss

unfoldable pub captured_shapes : List VariableState → List (Option Text) → List (Option Text)
unfolding is_captured
captured_shapes (s ∷ ss) (n ∷ ns) =
    if is_captured s then n ∷ captured_shapes ss ns else captured_shapes ss ns
captured_shapes _ _ = []

-- Each side of a trap is checked in a context of its own, where the variables that have not been
-- moved stand borrowed.
unfoldable pub captured : VerificationContext → VerificationContext
unfolding captured_states captured_shapes
captured c = record c {
  stack = captured_states c.stack;
  stack_shapes = captured_shapes c.stack c.stack_shapes;
}

unfoldable pub check_trap : Check → Check → Check
unfolding captured
check_trap try_expr fallback_expr c =
    bind (try_expr (captured c)) λ _. bind (fallback_expr (captured c)) λ _. ok c

-- What `> inner` does, by the form of `inner`; any other expression is checked by `other`.
unfoldable pub check_move : Expr → Check → Check
unfolding consume on_expand
check_move (Expr.de_bruijn index) other = consume index
check_move (Expr.expand name) other = on_expand consume name
check_move _ other = other
