-- ===== src/Codegen/Safe.antt =====
-- src/compiler/codegen/symbol.rs `gen_function`: the panics that its own check rules out.
use llmlang.Prelude.{
  ℕ, suc, ◌≡◌, refl, sym, ap, subst, ◌∙◌, Bool, true, false, not, ◌&&◌, ◌||◌, Text, codes, text_eq,
  List, [], ◌∷◌, ◌++◌, Option, append-nil, length, Bool-cases, inl, inr,
}
use llmlang.Ast.{Param, Expr}
use llmlang.Error.{Result, ok, err}
use llmlang.Verify.{VariableState, VerificationContext, verify_expr}
use llmlang.Codegen.Names.{has_expand, export_name, final_name}
use llmlang.Codegen.Agreement.{states}
use llmlang.Codegen.Variables.{Frame, Panic, Settings, next, emit, emit_on, emitted}
use llmlang.Codegen.Walk.{gen_on_fuel}
use llmlang.Codegen.Bodies.{Inner}
use llmlang.Codegen.Functions.{
  Failure, compile_error, panicked, param_states, expanded, verify_context, param_items,
  param_flags, open_function, enter_span, close_function, body_code, gen_code, gen_declared,
  gen_function, generated_code,
}
use llmlang.Codegen.Follows.{
  idle, Fine, Follows, emit-Follows, emit_on-Follows, next-Follows, end-Follows,
}
use llmlang.Codegen.Stack.{StackItem}
use llmlang.Codegen.Accepts.{Plain, gen_expr-Follows}

-- A panic that is not about the state of a variable, and not the end of the fuel.
abbrev pub IsOther : Panic → Type 0
IsOther (Panic.other _) = Unit
IsOther _ = ⊥

-- No panic but another one: a result, an error of the check, or a panic on something else.
abbrev pub IsStateSafe : {A : Type 0} → Result Failure A → Type 0
IsStateSafe (ok _) = Unit
IsStateSafe (err (compile_error _)) = Unit
IsStateSafe (err (panicked p)) = IsOther p

abbrev Safe : {A : Type 0} → Result Panic A → Type 0
Safe (ok _) = Unit
Safe (err p) = IsOther p

available_above :
    (params : List Param) (ss : List VariableState)
    → param_states params ++ (VariableState.available ∷ ss)
      ≡ VariableState.available ∷ (param_states params ++ ss)
unfolding param_states
available_above [] ss = refl
available_above (_ ∷ params) ss = ap (λ r. VariableState.available ∷ r) (available_above params ss)

expanded-none :
    (params : List Param) (i : ℕ) (m : List (Text × ℕ))
    → has_expand params ≡ false
    → expanded i params m ≡ m
unfolding expanded
expanded-none [] i m h = refl
expanded-none (p ∷ params) i m h = elim (Bool-cases p.expand) [
  | inl e ↦ absurd (cc (h, e))
  | inr e ↦ rw e (expanded-none params (suc i) m (sym (ap (λ b. b || has_expand params) e) ∙ h))
]

module _ {G V : Type 0} (s : Settings G V) where
  items-states :
      (function : V) (flags : List Bool) (params : List Param) (i : ℕ) (below : List (StackItem V))
      → states (param_items s function flags i params below) ≡ param_states params ++ states below
  unfolding param_items param_states
  items-states function flags [] i below = refl
  items-states function flags (_ ∷ params) i below =
      items-states function flags params (suc i) _ ∙ available_above params (states below)

  Fine-Safe :
      {A : Type 0} (c : VerificationContext) (n : ℕ) (r : Result Panic (A × Frame G V))
      → Fine [] c n r
      → Safe r
  Fine-Safe c n (ok _) h = tt
  Fine-Safe c n (err (Panic.other t)) h = tt
  Fine-Safe c n (err _) h = h

  body_code-Follows :
      (fuel : ℕ) (full_name : Text) (body : Expr) (span : Option Text)
      → Plain s
      → Inner s.parallel_threshold body
      → Follows [] (verify_expr body) (body_code s (suc fuel) full_name body span)
  unfolding body_code gen_on_fuel
  body_code-Follows fuel full_name body span plain inner =
      next-Follows [] idle (verify_expr body) (emit (enter_span s span)) _ (emit-Follows [] _)
        λ started.
          end-Follows [] (verify_expr body) (gen_on_fuel s (suc fuel) body [])
            (λ ret_val. emit_on (close_function s full_name started ret_val))
            (gen_expr-Follows s plain (gen_on_fuel s fuel) [] body inner)
            λ ret_val. emit_on-Follows [] _

  code-Safe :
      (fuel : ℕ) (name full_name : Text) (internal : Bool) (params : List Param) (body : Expr)
      (span : Option Text) (g : G) (c c' : VerificationContext)
      → Plain s
      → Inner s.parallel_threshold body
      → c.expand_map ≡ []
      → c.stack ≡ param_states params
      → verify_expr body c ≡ ok c'
      → Safe (gen_code s (suc fuel) name full_name internal params body span g)
  unfolding gen_code next emit emit_on
  code-Safe fuel name full_name internal params body span g c c' plain inner x y e =
      at (open_function s full_name (length params) internal g)
    where
      bare : Frame G V
      bare = record { stack = []; parallel_depth = 0; llvm = g }

      items : V → List (StackItem V)
      items function = param_items s function (param_flags s name) 0 params []

      at :
          (r : Result Text (V × G))
          → Safe (elim (emitted bare r) as (λ _. Result Panic (Unit {0} × Frame G V)) [
            | err z ↦ err z
            | ok (function, f) ↦
                body_code s (suc fuel) full_name body span (record f { stack = items function })
          ])
      at (err z) = tt
      at (ok (function, g')) =
          let f : Frame G V = record { stack = items function; parallel_depth = 0; llvm = g' } in
          let same =
            items-states function (param_flags s name) params 0 []
            ∙ append-nil (param_states params) in
          Fine-Safe c' (length f.stack) (body_code s (suc fuel) full_name body span f)
            (body_code-Follows fuel full_name body span plain inner c c' f (x, y ∙ sym same) e)

module _ {G V : Type 0} where
  export-Plain :
      (s : Settings G V) (name : Text) (exported : Bool)
      → Plain s
      → Plain (record s { symbols = export_name name exported s.symbols })
  unfolding export_name
  export-Plain s name true plain = record { no_template = plain.no_template }
  export-Plain s name false plain = record { no_template = plain.no_template }

  generated-IsOther :
      (s : Settings G V) (r : Result Panic (Unit {0} × Frame G V)) (p : Panic)
      → Safe r
      → generated_code s r ≡ err (panicked p)
      → IsOther p
  generated-IsOther s (ok (_, f)) p safe h = absurd (cc (h))
  generated-IsOther s (err q) p safe h = let same : q ≡ p = cc in subst IsOther same safe

  declared-IsOther :
      (s : Settings G V) (fuel : ℕ) (name : Text) (params : List Param) (body : Expr)
      (exported : Bool) (span : Option Text) (g : G) (p : Panic) (c' : VerificationContext)
      → Plain s
      → Inner s.parallel_threshold body
      → verify_expr body (verify_context s name params body g) ≡ ok c'
      → (b : Bool) → has_expand params ≡ b
      → gen_declared (suc fuel) name params body exported span s g ≡ err (panicked p)
      → IsOther p
  unfolding gen_declared verify_context
  declared-IsOther s fuel name params body exported span g p c' plain inner e true x h =
      absurd (cc (x, h))
  declared-IsOther s fuel name params body exported span g p c' plain inner e false x h =
      let s' : Settings G V = record s { symbols = export_name name exported s.symbols } in
      let code =
        gen_code s' (suc fuel) name (final_name s.file name exported)
          (not exported && not (text_eq name (codes "main"))) params body span g in
      let step : gen_declared (suc fuel) name params body exported span s g
          ≡ generated_code s' code =
        rw x refl in
      generated-IsOther s' code p
        (code-Safe s' fuel name (final_name s.file name exported)
          (not exported && not (text_eq name (codes "main"))) params body span g
          (verify_context s name params body g) c' (export-Plain s name exported plain) inner
          (expanded-none params 0 [] x) refl e)
        (sym step ∙ h)

  verified-IsOther :
      (s : Settings G V) (fuel : ℕ) (name : Text) (params : List Param) (body : Expr)
      (exported : Bool) (span : Option Text) (g : G) (p : Panic)
      → Plain s
      → Inner s.parallel_threshold body
      → (r : Result Text VerificationContext)
      → verify_expr body (verify_context s name params body g) ≡ r
      → gen_function (suc fuel) name params body exported span s g ≡ err (panicked p)
      → IsOther p
  unfolding gen_function
  verified-IsOther s fuel name params body exported span g p plain inner (err x) e h =
      absurd (cc (e, h))
  verified-IsOther s fuel name params body exported span g p plain inner (ok c') e h =
      let step : gen_function (suc fuel) name params body exported span s g
          ≡ gen_declared (suc fuel) name params body exported span s g =
        rw (e, gen_function) refl in
      declared-IsOther s fuel name params body exported span g p c' plain inner e
        (has_expand params) refl (sym step ∙ h)

  all-IsStateSafe :
      (r : Result Failure (Settings G V × G))
      → ((p : Panic) → r ≡ err (panicked p) → IsOther p)
      → IsStateSafe r
  all-IsStateSafe (ok _) h = tt
  all-IsStateSafe (err (compile_error _)) h = tt
  all-IsStateSafe (err (panicked p)) h = h p refl

-- If no function has been kept as a template, and there is fuel, then gen_function, for a body without
-- definitions inside of it, whose metadata has literals for tags and values, and in which no left operand
-- of an operator and no argument but the last is a pure expression above the threshold for a task of its
-- own, returns the function or an error of its check, or panics on something else: neither on a
-- variable that is out of bounds, was moved or is borrowed, nor on branches that leave different states,
-- nor for want of fuel.
pub gen_function-IsStateSafe :
    {G V : Type 0} (s : Settings G V) (fuel : ℕ) (name : Text) (params : List Param) (body : Expr)
    (exported : Bool) (span : Option Text) (g : G)
    → Plain s
    → Inner s.parallel_threshold body
    → IsStateSafe (gen_function (suc fuel) name params body exported span s g)
gen_function-IsStateSafe s fuel name params body exported span g plain inner =
    all-IsStateSafe (gen_function (suc fuel) name params body exported span s g) λ p h.
      verified-IsOther s fuel name params body exported span g p plain inner
        (verify_expr body (verify_context s name params body g)) refl h
