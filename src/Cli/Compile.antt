-- ===== src/Cli/Compile.antt =====
-- src/main.rs: `main` from the arguments to the files that it writes. The file system and the code
-- generator are parameters; what is printed on an error is left out.
use llmlang.Prelude.{
  Bool, true, false, not, ◌&&◌, ◌||◌, Text, codes, text_eq, List, [], ◌∷◌, ◌++◌, Option, none, some,
  if◌then◌else◌, strip_suffix,
}
use llmlang.Ast.{Expr}
use llmlang.Error.{CompileError, Result, ok, err, Outcome}
use llmlang.Analysis.{prune_dead_code}
use llmlang.Parser.{Host, Parser, parse_source}
use llmlang.Verify.{verify_module}
use llmlang.Codegen.{Generator, gen_module}
use llmlang.Cli.Args.{
  Config, Options, no_options, Exit, Ended, exit, panicked, out_of_fuel, parse_options,
}

-- What a run writes: a text into a file, the LLVM module on the standard output, or the object file of
-- a code generator's state.
pub data Output (S : Type 0) : Type 0 where
  written : Text → Text → Output S
  printed : Text → Output S
  emitted : Text → S → Output S

pub record Run (S : Type 0) : Type 0 where
  pub ended : Ended
  pub outputs : List (Output S)

-- What `main` uses; `writes` and `emits` tell whether a file can be written.
pub record Compiler (S : Type 0) : Type 0 where
  pub host : Host
  pub read_config : Text → Result Text Config
  pub read_to_string : Text → Result Text Text
  pub new_codegen : Text → Config → S
  pub analyze_module_types : List Expr → S → S
  pub generator : Generator S
  pub has_exports : S → Bool
  pub emit_signature_file : S → Text
  pub print_to_string : S → Text
  pub writes : Text → Bool
  pub emits : Text → S → Bool

unfoldable pub sig_path : Option Text → Text → Text
unfolding strip_suffix
sig_path none input_path = input_path ++ codes ".llmi"
sig_path (some p) input_path = elim (strip_suffix (codes ".o") p) [
  | some stem ↦ stem ++ codes ".llmi"
  | none ↦ p ++ codes ".llmi"
]

abbrev pub is_some : {A : Type 0} → Option A → Bool
is_some none = false
is_some (some _) = true

module _ {S : Type 0} (c : Compiler S) where
  -- A run that stops before it writes anything.
  abbrev pub stopped : Ended → Run S
  stopped e = record { ended = e; outputs = [] }

  -- An output comes before those of the rest of the run, if it can be written.
  abbrev pub then_write : Bool → Output S → Run S → Run S
  then_write true o r = record { ended = r.ended; outputs = o ∷ r.outputs }
  then_write false o r = stopped panicked

  abbrev pub done : Run S
  done = stopped (exit 0)

  -- The last outputs, of the module as LLVM's text.
  unfoldable pub write_ir : Option Text → S → Run S
  write_ir none s = then_write true (Output.printed (c.print_to_string s)) done
  write_ir (some out) s = then_write (c.writes out) (Output.written out (c.print_to_string s)) done

  unfoldable pub write_object : Option Text → S → Run S
  write_object none s = done
  write_object (some out) s = then_write (c.emits out s) (Output.emitted out s) done

  abbrev pub wants_ir : Options → Bool
  wants_ir o = o.emit_ir || (not o.emit_sig && not (is_some o.output_path))

  unfoldable pub write_module : Options → S → Run S
  unfolding write_ir write_object
  write_module o s = if wants_ir o then write_ir o.output_path s else write_object o.output_path s

  abbrev pub wants_sig : Options → S → Bool
  wants_sig o s = o.emit_sig || (is_some o.output_path && c.has_exports s)

  unfoldable pub write_outputs : Options → Text → S → Run S
  unfolding sig_path write_module
  write_outputs o input_path s =
      let path = sig_path o.output_path input_path in
      if wants_sig o s
      then then_write (c.writes path) (Output.written path (c.emit_signature_file s))
          (write_module o s)
      else write_module o s

  unfoldable pub generated : Options → Text → Result CompileError S → Run S
  unfolding write_outputs
  generated o input_path (err e) = stopped (exit 1)
  generated o input_path (ok s) = write_outputs o input_path s

  unfoldable pub start : Options → Text → List Expr → S
  start o input_path exprs = c.analyze_module_types exprs (c.new_codegen input_path o.config)

  unfoldable pub verified : Options → Text → List Expr → Result CompileError (Unit {0}) → Run S
  unfolding gen_module generated start
  verified o input_path exprs (err e) = stopped (exit 1)
  verified o input_path exprs (ok _) =
      generated o input_path (gen_module c.generator exprs (start o input_path exprs))

  unfoldable pub pruned : Options → Text → Option (List Expr) → Run S
  unfolding verify_module verified
  pruned o input_path none = stopped out_of_fuel
  pruned o input_path (some exprs) = verified o input_path exprs (verify_module exprs input_path)

  unfoldable pub parsed : Options → Text → Outcome (List Expr × Parser) → Run S
  unfolding prune_dead_code pruned
  parsed o input_path (Outcome.ok (exprs, _)) = pruned o input_path (prune_dead_code exprs)
  parsed o input_path (Outcome.err e) = stopped (exit 1)
  parsed o input_path Outcome.panic = stopped panicked
  parsed o input_path Outcome.out_of_fuel = stopped out_of_fuel

  unfoldable pub compile_file : Options → Text → Run S
  unfolding parse_source parsed
  compile_file o input_path = elim (c.read_to_string input_path) [
    | err _ ↦ stopped (exit 1)
    | ok input ↦ parsed o input_path (parse_source c.host input input_path o.import_paths)
  ]

  unfoldable pub compile_options : Result Exit Options → Run S
  unfolding compile_file
  compile_options (err Exit.help) = stopped (exit 0)
  compile_options (err Exit.version) = stopped (exit 0)
  compile_options (err (Exit.failure _)) = stopped (exit 1)
  compile_options (ok o) = elim o.input_path [
    | none ↦ stopped panicked
    | some input_path ↦ compile_file o input_path
  ]

  -- The arguments behind the program's name; `run_test` is the command `test`.
  unfoldable pub main : (List Text → Ended) → List Text → Run S
  unfolding parse_options no_options compile_options text_eq
  main run_test [] = stopped (exit 1)
  main run_test (a ∷ rest) =
      if text_eq a (codes "test")
      then stopped (run_test rest)
      else compile_options (parse_options c.read_config (a ∷ rest) no_options)
