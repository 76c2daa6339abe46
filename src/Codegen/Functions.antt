-- ===== src/Codegen/Functions.antt =====
-- src/compiler/codegen/symbol.rs: `gen_function`. The code generator is its settings with LLVM's module; the
-- bodies of templates are expanded on fuel.
use llmlang.Prelude.{
  ℕ, suc, not, ◌&&◌, ◌||◌, Bool, true, false, Text, codes, text_eq, List, [], ◌∷◌, Option, none,
  some, length, get_elem?, lookup, insert, contains_key, if◌then◌else◌,
}
use llmlang.Ast.{Param, Expr}
use llmlang.Error.{CompileError, Result, ok, err}
use llmlang.Analysis.{get_calls}
use llmlang.Verify.{VariableState, VerificationContext, verify_expr}
use llmlang.Codegen.Names.{export_name, final_name, has_expand, has_function}
use llmlang.Codegen.Stack.{StackItem}
use llmlang.Codegen.Builder.{
  Emit, plain, ◌>>=◌, ◌>>◌, pure, build, call, position_at_end, as_int, gen_string_constant,
}
use llmlang.Codegen.Variables.{Frame, Step, Panic, Settings, next, emit, emit_on, drop_all}
use llmlang.Codegen.Calls.{resolve}
use llmlang.Codegen.Walk.{gen_on_fuel}

-- An error that is returned, or a panic.
pub data Failure : Type 0 where
  compile_error : CompileError → Failure
  panicked : Panic → Failure

-- The variables that the parameters are: all available, of no shape.
unfoldable pub param_states : List Param → List VariableState
param_states [] = []
param_states (_ ∷ params) = VariableState.available ∷ param_states params

unfoldable pub param_shapes : List Param → List (Option Text)
param_shapes [] = []
param_shapes (_ ∷ params) = none ∷ param_shapes params

unfoldable pub expanded : ℕ → List Param → List (Text × ℕ) → List (Text × ℕ)
unfolding insert
expanded i [] m = m
expanded i (p ∷ params) m = expanded (suc i) params (if p.expand then insert p.name i m else m)

module _ {G V : Type 0} (s : Settings G V) where
  unfoldable pub is_known : Text → G → Bool
  unfolding resolve has_function contains_key
  is_known call_name g =
      let resolved = resolve s call_name g in
      has_function resolved (s.llvm.functions g)
      || contains_key resolved s.symbols.templates
      || has_function call_name (s.llvm.functions g)
      || contains_key resolved s.fn_param_ptrs
      || contains_key call_name s.fn_param_ptrs

  unfoldable pub known_calls : List Text → G → List (Text × ℕ) → List (Text × ℕ)
  unfolding is_known insert
  known_calls [] g functions = functions
  known_calls (name ∷ names) g functions =
      known_calls names g (if is_known name g then insert name 0 functions else functions)

  unfoldable pub verify_context : Text → List Param → Expr → G → VerificationContext
  unfolding known_calls param_states param_shapes expanded get_calls insert
  verify_context name params body g = record {
    shapes = s.symbols.shapes;
    functions = insert name (length params) (known_calls (get_calls body) g []);
    stack = param_states params;
    stack_shapes = param_shapes params;
    expand_map = expanded 0 params [];
  }

  abbrev flag_at : List Bool → ℕ → Bool
  flag_at flags i = elim (get_elem? flags i) [ none ↦ false | some b ↦ b ]

  -- The parameters from the number `i` on above `below`.
  unfoldable pub param_items :
      V → List Bool → ℕ → List Param → List (StackItem V) → List (StackItem V)
  param_items function flags i [] below = below
  param_items function flags i (_ ∷ params) below = param_items function flags (suc i) params (
      record {
        value = s.llvm.get_nth_param function i;
        state = VariableState.available;
        shape = none;
        is_ptr = flag_at flags i;
      }
      ∷ below)

  unfoldable pub param_flags : Text → List Bool
  unfolding lookup
  param_flags name = elim (lookup name s.fn_param_ptrs) [ none ↦ [] | some flags ↦ flags ]

  unfoldable pub find_or_add : Text → ℕ → Emit G V
  unfolding has_function
  find_or_add full_name arity g =
      if has_function full_name (s.llvm.functions g)
      then ok (s.llvm.function_value full_name, g)
      else ok (s.llvm.add_function full_name arity g)

  abbrev make_internal : Bool → V → Emit G (Unit {0})
  make_internal false function g = ok (tt, g)
  make_internal true function g =
      ok (tt, (s.llvm.build (plain (codes "set_linkage Internal")) (function ∷ []) g).1)

  abbrev entry_of : V → Emit G V
  entry_of function g = ok (s.llvm.append_entry function g)

  unfoldable pub open_function : Text → ℕ → Bool → Emit G V
  unfolding find_or_add
  open_function full_name arity internal = do
    function ← find_or_add full_name arity
    make_internal internal function
    entry ← entry_of function
    position_at_end s.llvm entry
    pure function

  -- The start time, where the function has a span.
  unfoldable pub enter_span : Option Text → Emit G (Option (Text × V))
  enter_span none = pure none
  enter_span (some span_name) = do
    start_time ← call s.llvm (codes "llm_get_time_ns") []
    call s.llvm (codes "llm_otel_enter_span") []
    pure (some (span_name, start_time))

  unfoldable pub exit_span : Option (Text × V) → Emit G (Unit {0})
  unfolding gen_string_constant as_int
  exit_span none = pure tt
  exit_span (some (span_name, start_time)) = do
    end_time ← call s.llvm (codes "llm_get_time_ns") []
    name_ptr ← gen_string_constant s.llvm s.hash span_name
    name_int ← as_int s.llvm name_ptr
    call s.llvm (codes "llm_otel_emit_span") (name_int ∷ start_time ∷ end_time ∷ [])
    call s.llvm (codes "llm_otel_exit_span") []
    pure tt

  unfoldable pub close_function :
      Text → Option (Text × V) → V → List (StackItem V) → Emit G (Unit {0})
  unfolding exit_span drop_all text_eq
  close_function full_name span ret_val stack = do
    exit_span span
    drop_all s stack
    if text_eq full_name (codes "main")
        then (do call s.llvm (codes "llm_emit_wait_all") []; pure tt)
        else pure tt
    build s.llvm (codes "return") (ret_val ∷ [])
    pure tt

  -- The code of the body, from the variables on that the parameters are.
  unfoldable pub body_code : ℕ → Text → Expr → Option Text → Step G V (Unit {0})
  unfolding enter_span gen_on_fuel close_function
  body_code fuel full_name body span = next (emit (enter_span span)) λ started.
      next (gen_on_fuel s fuel body [])
        λ ret_val. emit_on (close_function full_name started ret_val)

  -- A function that is not a template, with its body's code.
  unfoldable pub gen_code :
      ℕ
      → Text
      → Text
      → Bool
      → List Param
      → Expr
      → Option Text
      → G
      → Result Panic (Unit {0} × Frame G V)
  unfolding open_function body_code param_items param_flags
  gen_code fuel name full_name internal params body span g =
      next (emit (open_function full_name (length params) internal))
        (λ function. λ f.
          body_code fuel full_name body span
            (record f { stack = param_items function (param_flags name) 0 params [] }))
        (record { stack = []; parallel_depth = 0; llvm = g })

module _ {G V : Type 0} where
  abbrev pub generated_code :
      Settings G V → Result Panic (Unit {0} × Frame G V) → Result Failure (Settings G V × G)
  generated_code s (err p) = err (Failure.panicked p)
  generated_code s (ok (_, f)) = ok (s, f.llvm)

  unfoldable pub gen_declared :
      ℕ
      → Text
      → List Param
      → Expr
      → Bool
      → Option Text
      → Settings G V
      → G
      → Result Failure (Settings G V × G)
  unfolding export_name final_name insert gen_code text_eq
  gen_declared fuel name params body exported span s g =
      let s' = record s { symbols = export_name name exported s.symbols } in
      let full_name = final_name s.file name exported in
      if has_expand params
      then ok (
        record s' {
          symbols = record s'.symbols {
            templates =
                insert full_name (record { params = params; body = body }) s'.symbols.templates;
          };
        },
        (s.llvm.add_function full_name 0 g).1,
      )
      else generated_code s' (
          gen_code s' fuel name full_name (not exported && not (text_eq name (codes "main"))) params
            body span g)

  -- The body is checked once more, with the functions that are known by now.
  unfoldable pub gen_function :
      ℕ
      → Text
      → List Param
      → Expr
      → Bool
      → Option Text
      → Settings G V
      → G
      → Result Failure (Settings G V × G)
  unfolding verify_context verify_expr gen_declared
  gen_function fuel name params body exported span s g =
      elim (verify_expr body (verify_context s name params body g)) [
        | err err_code ↦
            err (
              Failure.compile_error (record { code = err_code; filename = s.input_path; line = 1 }))
        | ok _ ↦ gen_declared fuel name params body exported span s g
      ]
