-- ===== src/Cli/Accepted.antt =====
-- src/main.rs `main`: what holds of a module for which something is written.
use llmlang.Prelude.{
  ℕ, ◌≡◌, ◌≢◌, refl, ◌⊎◌, inl, inr, suc, subst, Bool, false, Text, codes, text_eq, List, [], ◌∷◌,
  Option, none, some, arith, if◌then◌else◌, All, get_elem?,
}
use llmlang.Ast.{Expr}
use llmlang.Parser.{Parser, parse_source}
use llmlang.Error.{CompileError, Result, ok, err, Outcome}
use llmlang.Analysis.{prune_dead_code}
use llmlang.Verify.{verify_module, actual}
use llmlang.Verify.Machine.{IsLinear, exec}
use llmlang.Verify.Linear.{param_slots, expands_of, entry, verify_module-IsLinear}
use llmlang.Codegen.{gen_module}
use llmlang.Cli.Args.{Options, Exit, Ended, exit, panicked, out_of_fuel, parse_options, no_options}
use llmlang.Cli.Compile.{
  Run, Compiler, start, generated, verified, pruned, parsed, compile_file, compile_options, main,
  stopped,
}
use llmlang.Cli.Outputs.{NotEmpty}

-- If it is a function, then whatever its branches and traps choose, it uses no variable after a move.
abbrev pub AlwaysLinear : Expr → Type 0
AlwaysLinear (Expr.define name params body exported) =
    (choices : List Bool)
    → IsLinear (exec (expands_of params) body (param_slots 0 params []) (entry params choices)).log
AlwaysLinear _ = Unit

at_indices :
    (P : Expr → Type 0) (es : List Expr)
    → ((i : ℕ) (e : Expr) → get_elem? es i ≡ some e → P e)
    → All P es
at_indices P [] h = tt
at_indices P (e ∷ es) h = (h 0 e refl, at_indices P es (λ i. h (suc i)))

verified-AlwaysLinear :
    (es : List Expr) (filename : Text)
    → verify_module es filename ≡ ok tt
    → All (λ e. AlwaysLinear (actual e)) es
verified-AlwaysLinear es filename h = at_indices _ es λ i e g. at i e g (actual e) refl
  where
    at : (i : ℕ) (e : Expr) → get_elem? es i ≡ some e → (a : Expr) → actual e ≡ a → AlwaysLinear a
    at i e g (Expr.define name params body exported) d =
        verify_module-IsLinear es filename i e name params body exported h g d
    at i e g a d = tt

module _ {S : Type 0} (c : Compiler S) where
  -- A run that exits with 0 or has written something.
  abbrev Worked : Run S → Type 0
  Worked r = (r.ended ≡ exit 0) ⊎ NotEmpty r.outputs

  -- The module passes the check, and then it is linear, and code is generated for it.
  abbrev pub Checked : Options → Text → List Expr → Type 0
  Checked o path kept =
      (verify_module kept path ≡ ok tt)
      × All (λ e. AlwaysLinear (actual e)) kept
      × ((s : S) × (gen_module c.generator kept (start c o path kept) ≡ ok s))

  abbrev pub Parsed : Options → Text → Outcome (List Expr × Parser) → Type 0
  Parsed o path r =
      (exprs : List Expr) × (q : Parser) × (kept : List Expr) × (r ≡ Outcome.ok (exprs, q))
      × (prune_dead_code exprs ≡ some kept)
      × Checked o path kept

  abbrev pub Compiles : Options → Text → Type 0
  Compiles o path =
      (input : Text) × (c.read_to_string path ≡ ok input)
      × Parsed o path (parse_source c.host input path o.import_paths)

  stopped-idle : (e : Ended) → e ≢ exit 0 → ¬ Worked (stopped c e)
  stopped-idle e h (inl z) = h z
  stopped-idle e h (inr z) = z

  generated-code :
      (o : Options) (path : Text) (r : Result CompileError S)
      → Worked (generated c o path r)
      → (s : S) × (r ≡ ok s)
  unfolding generated
  generated-code o path (ok s) w = (s, refl)
  generated-code o path (err e) w = absurd (stopped-idle (exit 1) (λ z. absurd (ground arith)) w)

  checked :
      (o : Options) (path : Text) (kept : List Expr)
      → Worked (pruned c o path (some kept))
      → Checked o path kept
  unfolding pruned verified
  checked o path kept = at (verify_module kept path) refl
    where
      at :
          (v : Result CompileError (Unit {0}))
          → verify_module kept path ≡ v
          → Worked (verified c o path kept v)
          → Checked o path kept
      at (ok u) e w =
          let passed : verify_module kept path ≡ ok tt = e in
          (passed, verified-AlwaysLinear kept path passed, generated-code o path _ w)
      at (err x) e w = absurd (stopped-idle (exit 1) (λ z. absurd (ground arith)) w)

  parsed-Parsed :
      (o : Options) (path : Text) (r : Outcome (List Expr × Parser))
      → Worked (parsed c o path r)
      → Parsed o path r
  unfolding parsed pruned
  parsed-Parsed o path (Outcome.ok (exprs, q)) = at (prune_dead_code exprs) refl
    where
      at :
          (k : Option (List Expr))
          → prune_dead_code exprs ≡ k
          → Worked (pruned c o path k)
          → Parsed o path (Outcome.ok (exprs, q))
      at (some kept) e w = (exprs, q, kept, refl, e, checked o path kept w)
      at none e w = absurd (stopped-idle out_of_fuel (λ z. absurd (ground arith)) w)
  parsed-Parsed o path (Outcome.err e) =
      λ w. absurd (stopped-idle (exit 1) (λ z. absurd (ground arith)) w)
  parsed-Parsed o path Outcome.panic =
      λ w. absurd (stopped-idle panicked (λ z. absurd (ground arith)) w)
  parsed-Parsed o path Outcome.out_of_fuel =
      λ w. absurd (stopped-idle out_of_fuel (λ z. absurd (ground arith)) w)

  file-Compiles : (o : Options) (path : Text) → Worked (compile_file c o path) → Compiles o path
  unfolding compile_file
  file-Compiles o path = at (c.read_to_string path) refl
    where
      at :
          (r : Result Text Text)
          → c.read_to_string path ≡ r
          → Worked (elim r as (λ _. Run S) [
            | err _ ↦ stopped c (exit 1)
            | ok input ↦ parsed c o path (parse_source c.host input path o.import_paths)
          ])
          → Compiles o path
      at (ok input) e w = (input, e, parsed-Parsed o path _ w)
      at (err x) e w = absurd (stopped-idle (exit 1) (λ z. absurd (ground arith)) w)

  -- The help or the version is asked for, or the input file compiles.
  abbrev pub Accepted : Result Exit Options → Type 0
  Accepted (err e) = (e ≡ Exit.help) ⊎ (e ≡ Exit.version)
  Accepted (ok o) = (path : Text) × (o.input_path ≡ some path) × Compiles o path

  options-Accepted : (r : Result Exit Options) → Worked (compile_options c r) → Accepted r
  unfolding compile_options
  options-Accepted (err Exit.help) w = inl refl
  options-Accepted (err Exit.version) w = inr refl
  options-Accepted (err (Exit.failure t)) w =
      absurd (stopped-idle (exit 1) (λ z. absurd (ground arith)) w)
  options-Accepted (ok o) w = at o.input_path refl w
    where
      at :
          (i : Option Text)
          → o.input_path ≡ i
          → Worked (elim i as (λ _. Run S) [
            | none ↦ stopped c panicked
            | some path ↦ compile_file c o path
          ])
          → Accepted (ok o)
      at none e w = absurd (stopped-idle panicked (λ z. absurd (ground arith)) w)
      at (some path) e w = (path, e, file-Compiles o path w)

-- If the first argument is not `test`, and the run exits with 0 or writes anything, then the help or the
-- version was asked for, or the input file could be read and parsed, what the removal of dead code left
-- of it passes the ownership check, so that none of its functions ever uses a variable after a move,
-- and code was generated for it.
pub main-Accepted :
    {S : Type 0} (c : Compiler S) (run_test : List Text → Ended) (a : Text) (rest : List Text)
    → text_eq a (codes "test") ≡ false
    → ((main c run_test (a ∷ rest)).ended ≡ exit 0) ⊎ NotEmpty (main c run_test (a ∷ rest)).outputs
    → Accepted c (parse_options c.read_config (a ∷ rest) no_options)
unfolding main
main-Accepted c run_test a rest other worked =
    let read = parse_options c.read_config (a ∷ rest) no_options in
    options-Accepted c read (
      subst (λ b. Worked c (if b then stopped c (run_test rest) else compile_options c read)) other
        worked)
