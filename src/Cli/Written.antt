-- ===== src/Cli/Written.antt =====
-- src/main.rs `main`: what a whole run writes.
use llmlang.Prelude.{
  ◌≡◌, ◌≢◌, ◌∷◌, Bool, true, false, Text, codes, text_eq, List, [], Option, none, some, arith,
  if◌then◌else◌,
}
use llmlang.Ast.{Expr}
use llmlang.Parser.{Parser, parse_source}
use llmlang.Error.{CompileError, Result, ok, err, Outcome}
use llmlang.Analysis.{prune_dead_code}
use llmlang.Verify.{verify_module}
use llmlang.Cli.Args.{Options, Exit, Ended, exit, panicked, out_of_fuel, parse_options, no_options}
use llmlang.Cli.Compile.{
  Run, Compiler, write_outputs, generated, verified, pruned, parsed, compile_file, compile_options,
  main, stopped,
}
use llmlang.Cli.Outputs.{
  paths, Distinct, NotEmpty, Writes, write_outputs-Distinct, write_outputs-Writes,
}

module _ {S : Type 0} (c : Compiler S) where
  -- What holds where nothing is written, and for what is written in the end, holds for every file.
  module _ (P : Run S → Type 0) (stops : (e : Ended) → e ≢ exit 0 → P (stopped c e)) where
    generated-holds :
        (o : Options) (path : Text)
        → ((s : S) → P (write_outputs c o path s))
        → (r : Result CompileError S) → P (generated c o path r)
    unfolding generated
    generated-holds o path h (ok s) = h s
    generated-holds o path h (err e) = stops (exit 1) (λ z. absurd (ground arith))

    verified-holds :
        (o : Options) (path : Text)
        → ((s : S) → P (write_outputs c o path s))
        → (exprs : List Expr) (r : Result CompileError (Unit {0})) → P (verified c o path exprs r)
    unfolding verified
    verified-holds o path h exprs (ok _) = generated-holds o path h _
    verified-holds o path h exprs (err e) = stops (exit 1) (λ z. absurd (ground arith))

    parsed-holds :
        (o : Options) (path : Text)
        → ((s : S) → P (write_outputs c o path s))
        → (r : Outcome (List Expr × Parser)) → P (parsed c o path r)
    unfolding parsed pruned
    parsed-holds o path h (Outcome.ok (exprs, q)) = at (prune_dead_code exprs)
      where
        at : (k : Option (List Expr)) → P (pruned c o path k)
        at none = stops out_of_fuel (λ z. absurd (ground arith))
        at (some kept) = verified-holds o path h kept (verify_module kept path)
    parsed-holds o path h (Outcome.err e) = stops (exit 1) (λ z. absurd (ground arith))
    parsed-holds o path h Outcome.panic = stops panicked (λ z. absurd (ground arith))
    parsed-holds o path h Outcome.out_of_fuel = stops out_of_fuel (λ z. absurd (ground arith))

    compile_file-holds :
        (o : Options) (path : Text)
        → ((s : S) → P (write_outputs c o path s))
        → P (compile_file c o path)
    unfolding compile_file
    compile_file-holds o path h = at (c.read_to_string path)
      where
        at :
            (r : Result Text Text)
            → P (elim r [
              | err _ ↦ stopped c (exit 1)
              | ok input ↦ parsed c o path (parse_source c.host input path o.import_paths)
            ])
        at (err e) = stops (exit 1) (λ z. absurd (ground arith))
        at (ok input) = parsed-holds o path h (parse_source c.host input path o.import_paths)

  if-holds : (P : Run S → Type 0) (b : Bool) (r r' : Run S) → P r → P r' → P (if b then r else r')
  if-holds P true r r' h h' = h
  if-holds P false r r' h h' = h'

  options-Distinct : (r : Result Exit Options) → Distinct (paths (compile_options c r).outputs)
  unfolding compile_options
  options-Distinct (err Exit.help) = tt
  options-Distinct (err Exit.version) = tt
  options-Distinct (err (Exit.failure _)) = tt
  options-Distinct (ok o) = at o.input_path
    where
      at :
          (i : Option Text)
          → Distinct (
              paths
                (elim i as (λ _. Run S) [
                  | none ↦ stopped c panicked
                  | some path ↦ compile_file c o path
                ]).outputs)
      at none = tt
      at (some path) =
          compile_file-holds (λ r. Distinct (paths r.outputs)) (λ _ _. tt) o path
            (write_outputs-Distinct c o path)

  options-Writes : (o : Options) → Writes (compile_options c (ok o))
  unfolding compile_options
  options-Writes o = at o.input_path
    where
      at :
          (i : Option Text)
          → Writes (elim i as (λ _. Run S) [
            | none ↦ stopped c panicked
            | some path ↦ compile_file c o path
          ])
      at none h = absurd (ground arith)
      at (some path) h =
          compile_file-holds Writes (λ e differs z. absurd (differs z)) o path
            (write_outputs-Writes c o path) h

pub main-Distinct :
    {S : Type 0} (c : Compiler S) (run_test : List Text → Ended) (args : List Text)
    → Distinct (paths (main c run_test args).outputs)
unfolding main
main-Distinct c run_test [] = tt
main-Distinct c run_test (a ∷ rest) =
    if-holds c (λ r. Distinct (paths r.outputs)) (text_eq a (codes "test")) _ _ tt
      (options-Distinct c (parse_options c.read_config (a ∷ rest) no_options))

-- If the first argument is not `test`, and the arguments are read without an error and without asking
-- for the help or the version, then a run that exits with 0 has written a file or printed the module.
pub main-Writes :
    {S : Type 0} (c : Compiler S) (run_test : List Text → Ended) (a : Text) (rest : List Text)
    (o : Options)
    → text_eq a (codes "test") ≡ false
    → parse_options c.read_config (a ∷ rest) no_options ≡ ok o
    → (main c run_test (a ∷ rest)).ended ≡ exit 0
    → NotEmpty (main c run_test (a ∷ rest)).outputs
unfolding main
main-Writes c run_test a rest o other read = rw (other, read) (options-Writes c o)
