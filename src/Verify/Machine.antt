-- ===== src/Verify/Machine.antt =====
-- What a function body does to its variables, independently of the check: every variable that is
-- bound gets a slot of its own, and a run logs each access and each move of a slot. The names
-- resolve as the generated code resolves them (src/compiler/codegen/expr.rs): an index counts from
-- the innermost variable, and the two sides of a trap see the variables that are still owned. A
-- branch and the success of a trap are chosen by an oracle. A panic is run as if the code went on:
-- the log of a run that is cut short is a tail of this one.
use llmlang.Prelude.{
  ℕ, ◌+◌, ◌≡◌, Bool, true, false, ◌||◌, Text, List, [], ◌∷◌, none, some, ◌==◌, if◌then◌else◌,
  length, get_elem?, lookup,
}
use llmlang.Ast.{Expr, Exprs}
use llmlang.Verify.Checks.{from_top}

pub data Event : Type 0 where
  touch move : ℕ → Event

abbrev pub slot : Event → ℕ
slot (Event.touch i) = i
slot (Event.move i) = i

-- The log has the latest event first. `next` is above every slot in use.
pub record Machine : Type 0 where
  pub log : List Event
  pub next : ℕ
  pub choices : List Bool

unfoldable pub moved_in : ℕ → List Event → Bool
moved_in i [] = false
moved_in i (Event.touch j ∷ log) = moved_in i log
moved_in i (Event.move j ∷ log) = j == i || moved_in i log

-- No slot is touched or moved after it was moved.
abbrev pub IsLinear : List Event → Type 0
IsLinear [] = Unit
IsLinear (e ∷ older) = (moved_in (slot e) older ≡ false) × IsLinear older

abbrev pub Run : Type 0
Run = Machine → Machine

infixl 5 ◌>>◌
abbrev pub ◌>>◌ : Run → Run → Run
p >> q = λ m. q (p m)

unfoldable pub log_at : (ℕ → Event) → List ℕ → ℕ → Run
log_at event env k m = elim (get_elem? env k) [
  | none ↦ m
  | some i ↦ record m { log = event i ∷ m.log }
]

unfoldable pub log_expand : (ℕ → Event) → List (Text × ℕ) → List ℕ → Text → Run
unfolding log_at from_top lookup
log_expand event x env name m = elim (lookup name x) [
  | none ↦ m
  | some index ↦ log_at event env (from_top (length env) index) m
]

unfoldable pub bind_slot : (ℕ → Run) → Run
bind_slot body m = body m.next (record m { next = m.next + 1 })

abbrev pub first_choice : List Bool → Bool
first_choice [] = true
first_choice (b ∷ _) = b

abbrev pub later_choices : List Bool → List Bool
later_choices [] = []
later_choices (_ ∷ bs) = bs

unfoldable pub choose : Run → Run → Run
choose p q m =
    let m' : Machine = record m { choices = later_choices m.choices } in
    elim (first_choice m.choices) [ true ↦ p m' | false ↦ q m' ]

-- The slots that have not been moved.
unfoldable pub live : List ℕ → List Event → List ℕ
unfolding moved_in
live [] log = []
live (i ∷ is) log = if moved_in i log then live is log else i ∷ live is log

-- The tried expression, and the fallback behind it unless the oracle lets the try succeed.
unfoldable pub run_trap : List ℕ → (List ℕ → Run) → (List ℕ → Run) → Run
unfolding live choose
run_trap env t f m = let env' = live env m.log in choose (λ m'. m') (f env') (t env' m)

unfoldable pub run_move : List (Text × ℕ) → List ℕ → Expr → Run → Run
unfolding log_at log_expand
run_move x env (Expr.de_bruijn k) other = log_at Event.move env k
run_move x env (Expr.expand name) other = log_expand Event.move x env name
run_move x env _ other = other

module _ (x : List (Text × ℕ)) where
  unfoldable mutual
    unfolding log_at log_expand bind_slot choose run_trap run_move

    pub exec : Expr → List ℕ → Run
    exec (Expr.de_bruijn k) env = log_at Event.touch env k
    exec (Expr.expand name) env = log_expand Event.touch x env name
    exec (Expr.move inner) env = run_move x env inner (exec inner env)
    exec (Expr.borrow e) env = exec e env
    exec (Expr.mut_borrow e) env = exec e env
    exec (Expr.let_in _ v b) env = do exec v env; bind_slot (λ i. exec b (i ∷ env))
    exec (Expr.if_else c t f) env = do exec c env; choose (exec t env) (exec f env)
    exec (Expr.trap t f) env = run_trap env (exec t) (exec f)
    exec (Expr.apply f args) env = exec_args args env
    exec (Expr.new _ e) env = exec e env
    exec (Expr.get i _ idx) env = do exec i env; exec idx env
    exec (Expr.set i _ idx v) env = do exec i env; exec idx env; exec v env
    exec (Expr.seq l r) env = do exec l env; exec r env
    exec (Expr.binary_op _ l r) env = do exec l env; exec r env
    exec (Expr.cat l r) env = do exec l env; exec r env
    exec (Expr.loc l r) env = do exec l env; exec r env
    exec (Expr.reg l r) env = do exec l env; exec r env
    exec (Expr.write l r) env = do exec l env; exec r env
    exec (Expr.sub s b l) env = do exec s env; exec b env; exec l env
    exec (Expr.split s b l) env = do exec s env; exec b env; exec l env
    exec (Expr.time_get t i) env = do exec t env; exec i env
    exec (Expr.time_set y m d h mn s) env = do
      exec y env
      exec m env
      exec d env
      exec h env
      exec mn env
      exec s env
    exec (Expr.money_op _ l r) env = do exec l env; exec r env
    exec (Expr.time_op _ l r) env = do exec l env; exec r env
    exec (Expr.http_client m u b) env = do exec m env; exec u env; exec b env
    exec (Expr.http_server op arg) env = do exec op env; exec arg env
    exec (Expr.http_header req name) env = do exec req env; exec name env
    exec (Expr.file_open path mode) env = do exec path env; exec mode env
    exec (Expr.len e) env = exec e env
    exec (Expr.str e) env = exec e env
    exec (Expr.read e) env = exec e env
    exec (Expr.env e) env = exec e env
    exec (Expr.pack e) env = exec e env
    exec (Expr.unpack e _) env = exec e env
    exec (Expr.map e _ _) env = exec e env
    exec (Expr.filter e _) env = exec e env
    exec (Expr.money_str e) env = exec e env
    exec (Expr.panic e) env = exec e env
    exec (Expr.define _ _ body _) env = exec body env
    exec (Expr.metadata tag v t) env = do exec tag env; exec v env; exec t env
    exec (Expr.otel_emit t a₁ a₂ a₃) env = do exec t env; exec a₁ env; exec a₂ env; exec a₃ env
    exec _ env = λ m. m

    pub exec_args : Exprs → List ℕ → Run
    exec_args Exprs.nil env = λ m. m
    exec_args (Exprs.cons e es) env = do exec e env; exec_args es env
