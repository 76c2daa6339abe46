-- ===== src/Verify/Linear.antt =====
-- A module that passes the check uses each of its variables linearly.
use llmlang.Prelude.{
  ℕ, zero, suc, ◌+◌, ◌≡◌, refl, subst, Bool, Text, List, [], ◌∷◌, some, length, get_elem?, arith,
}
use mathlib.Core.Option.{some-injective}
use llmlang.Ast.{Param, Expr}
use llmlang.Error.{ok, map_err, bind-eq-ok, map_err-eq-ok}
use llmlang.Verify.Checks.{VerificationContext, push, is_moved, is_captured}
use llmlang.Verify.Walk.{verify_expr}
use llmlang.Verify.Module.{
  Tables, actual, register_all, enter_params, context_of, verify_body, verify_bodies, verify_module,
}
use llmlang.Verify.Machine.{Machine, IsLinear, exec, moved_in}
use llmlang.Verify.Invariant.{Below, Agrees, Inv}
use llmlang.Verify.Sound.{expr-Sound}

-- The slots of the parameters, the last one innermost.
abbrev pub param_slots : ℕ → List Param → List ℕ → List ℕ
param_slots i [] env = env
param_slots i (p ∷ ps) env = param_slots (suc i) ps (i ∷ env)

abbrev pub entry : List Param → List Bool → Machine
entry params choices = record { log = []; next = length params; choices = choices }

-- The expand parameters of a function, with their positions.
abbrev pub expands_of : List Param → List (Text × ℕ)
expands_of params =
    (enter_params 0 params (context_of (record { shapes = []; functions = [] }))).expand_map

enter-Agrees :
    (i : ℕ) (ps : List Param) (c : VerificationContext) (env : List ℕ)
    → Agrees c.stack env []
    → Agrees (enter_params i ps c).stack (param_slots i ps env) []
unfolding enter_params push is_moved is_captured moved_in
enter-Agrees i [] c env a = a
enter-Agrees i (p ∷ ps) c env a = enter-Agrees (suc i) ps _ (i ∷ env) (refl, refl, a)

enter-Below :
    (i : ℕ) (ps : List Param) (env : List ℕ)
    → Below i env
    → Below (i + length ps) (param_slots i ps env)
enter-Below i [] env b = subst (λ n. Below n env) (omega arith) b
enter-Below i (p ∷ ps) env b =
    subst (λ n. Below n (param_slots (suc i) ps (i ∷ env))) (omega arith)
      (enter-Below (suc i) ps (i ∷ env) (omega arith, b))

-- The tables of a module do not reach the expand parameters.
enter-expand_map :
    (i : ℕ) (ps : List Param) (c d : VerificationContext)
    → c.expand_map ≡ d.expand_map
    → (enter_params i ps c).expand_map ≡ (enter_params i ps d).expand_map
unfolding enter_params push
enter-expand_map i [] c d h = h
enter-expand_map i (p ∷ ps) c d h = enter-expand_map (suc i) ps _ _ (rw h)

body-IsLinear :
    (t : Tables) (filename : Text) (name : Text) (params : List Param) (body : Expr)
    (exported : Bool)
    → verify_body t filename (Expr.define name params body exported) ≡ ok tt
    → (choices : List Bool)
    → IsLinear (exec (expands_of params) body (param_slots 0 params []) (entry params choices)).log
unfolding verify_body
body-IsLinear t filename name params body exported h choices =
    let c = enter_params 0 params (context_of t) in
    let (c', passed, _) = bind-eq-ok (map_err _ (verify_expr body c)) (λ _. ok tt) h in
    let start : Inv (expands_of params) c (param_slots 0 params []) (entry params choices) =
      record {
        expands = enter-expand_map 0 params (context_of t) _ refl;
        below =
            subst (λ n. Below n (param_slots 0 params [])) (omega arith)
              (enter-Below 0 params [] tt);
        agrees = enter-Agrees 0 params (context_of t) [] tt;
        log_below = tt;
        linear = tt;
      } in
    (expr-Sound (expands_of params) body (param_slots 0 params []) c c' (entry params choices) start
      (map_err-eq-ok _ (verify_expr body c) passed)).inv.linear

bodies-at :
    (t : Tables) (filename : Text) (es : List Expr) (i : ℕ) {e : Expr}
    → verify_bodies t filename es ≡ ok tt
    → get_elem? es i ≡ some e
    → verify_body t filename (actual e) ≡ ok tt
unfolding verify_bodies
bodies-at t filename [] i h g = cc
bodies-at t filename (e' ∷ es) zero {e} h g =
    let (_, here, _) =
      bind-eq-ok (verify_body t filename (actual e')) (λ _. verify_bodies t filename es) h in
    subst (λ (o : Expr). verify_body t filename (actual o) ≡ ok tt) (some-injective e' e g) here
bodies-at t filename (e' ∷ es) (suc i) h g =
    let (_, _, later) =
      bind-eq-ok (verify_body t filename (actual e')) (λ _. verify_bodies t filename es) h in
    bodies-at t filename es i later g

-- If a module passes the check, then on every run of every function that it defines, whatever its
-- branches and traps choose, no variable is accessed or moved after it was moved.
pub verify_module-IsLinear :
    (exprs : List Expr) (filename : Text) (i : ℕ) (e : Expr) (name : Text) (params : List Param)
    (body : Expr) (exported : Bool)
    → verify_module exprs filename ≡ ok tt
    → get_elem? exprs i ≡ some e
    → actual e ≡ Expr.define name params body exported
    → (choices : List Bool)
    → IsLinear (exec (expands_of params) body (param_slots 0 params []) (entry params choices)).log
unfolding verify_module
verify_module-IsLinear exprs filename i e name params body exported h g d choices =
    let t = register_all exprs (record { shapes = []; functions = [] }) in
    let at : verify_body t filename (actual e) ≡ ok tt = bodies-at t filename exprs i h g in
    body-IsLinear t filename name params body exported (rw d at at) choices
