-- ===== src/Cli/Outputs.antt =====
-- src/main.rs `main`: the files that a compilation writes.
use llmlang.Prelude.{
  ◌≡◌, ◌≢◌, refl, ap, sym, ◌∙◌, Bool, true, false, Text, codes, List, [], ◌∷◌, ◌++◌, Option, none,
  some, All, length, arith, if◌then◌else◌, ◌||◌, ◌&&◌, not, strip_suffix, strip_suffix-append,
}
use llmlang.Cli.Args.{Options, exit}
use llmlang.Cli.Compile.{
  Output, Run, Compiler, sig_path, write_ir, write_object, write_module, write_outputs, stopped,
  then_write, wants_sig, wants_ir, is_some,
}

abbrev pub path_of : {S : Type 0} → Output S → List Text
path_of (Output.written path _) = path ∷ []
path_of (Output.printed _) = []
path_of (Output.emitted path _) = path ∷ []

abbrev pub paths : {S : Type 0} → List (Output S) → List Text
paths [] = []
paths (o ∷ os) = path_of o ++ paths os

abbrev pub Distinct : List Text → Type 0
Distinct [] = Unit
Distinct (p ∷ ps) = All (λ q. p ≢ q) ps × Distinct ps

apart : (s t u : Text) → length t ≢ length u → s ++ t ≢ s ++ u
apart [] t u h e = h (ap length e)
apart (c ∷ s) t u h e = apart s t u h (cc)

longer : (s t : Text) → length t ≢ 0 → s ++ t ≢ s
longer [] t h e = h (ap length e)
longer (c ∷ s) t h e = longer s t h (cc)

sig_path-differs : (p input_path : Text) → sig_path (some p) input_path ≢ p
unfolding sig_path
sig_path-differs p input_path =
    at (strip_suffix (codes ".o") p) (strip_suffix-append (codes ".o") p)
  where
    at :
        (o : Option Text)
        → ((s : Text) → o ≡ some s → s ++ codes ".o" ≡ p)
        → (elim o [ some stem ↦ stem ++ codes ".llmi" | none ↦ p ++ codes ".llmi" ]) ≢ p
    at none h e = longer p _ (λ z. absurd (omega (arith, z))) e
    at (some s) h e = apart s _ _ (λ z. absurd (omega (arith, z))) (e ∙ sym (h s refl))

abbrev pub NotEmpty : {A : Type 0} → List A → Type 0
NotEmpty [] = ⊥
NotEmpty (_ ∷ _) = Unit

-- If the run ends with the exit code 0, then it has written something.
abbrev pub Writes : {S : Type 0} → Run S → Type 0
Writes r = r.ended ≡ exit 0 → NotEmpty r.outputs

module _ {S : Type 0} (c : Compiler S) where
  -- Nothing or one file that is not `path`.
  abbrev OtherThan : Text → List Text → Type 0
  OtherThan path ps = All (λ q. path ≢ q) ps × Distinct ps

  one-OtherThan :
      (path out : Text) (b : Bool) (o : Output S)
      → path ≢ out
      → path_of o ≡ out ∷ []
      → OtherThan path (paths (then_write c b o (stopped c (exit 0))).outputs)
  one-OtherThan path out true o h e = rw e ((h, tt), (tt, tt))
  one-OtherThan path out false o h e = (tt, tt)

  module_paths :
      (b : Bool) (out : Option Text) (input_path : Text) (s : S)
      → OtherThan
          (sig_path out input_path)
          (paths (if b then write_ir c out s else write_object c out s).outputs)
  unfolding write_ir write_object
  module_paths true none input_path s = (tt, tt)
  module_paths true (some p) input_path s =
      one-OtherThan _ p (c.writes p) _ (sig_path-differs p input_path) refl
  module_paths false none input_path s = (tt, tt)
  module_paths false (some p) input_path s =
      one-OtherThan _ p (c.emits p s) _ (sig_path-differs p input_path) refl

  sig-Distinct :
      (wanted writable : Bool) (path text : Text) (r : Run S)
      → OtherThan path (paths r.outputs)
      → Distinct
          (paths (if wanted then then_write c writable (Output.written path text) r else r).outputs)
  sig-Distinct true true path text r h = h
  sig-Distinct true false path text r h = tt
  sig-Distinct false writable path text r h = h.1

  pub write_outputs-Distinct :
      (o : Options) (input_path : Text) (s : S)
      → Distinct (paths (write_outputs c o input_path s).outputs)
  unfolding write_outputs write_module
  write_outputs-Distinct o input_path s =
      sig-Distinct _ (c.writes (sig_path o.output_path input_path)) _ _ (write_module c o s)
        (module_paths _ o.output_path input_path s)

  one-Writes : (b : Bool) (o : Output S) → Writes (then_write c b o (stopped c (exit 0)))
  one-Writes true o h = tt
  one-Writes false o h = absurd (cc)

  module-Writes :
      (b : Bool) (out : Option Text) (s : S)
      → (out ≡ none → b ≡ true)
      → Writes (if b then write_ir c out s else write_object c out s)
  unfolding write_ir write_object
  module-Writes true none s g h = tt
  module-Writes true (some p) s g h = one-Writes (c.writes p) _ h
  module-Writes false none s g h = absurd (cc (g refl))
  module-Writes false (some p) s g h = one-Writes (c.emits p s) _ h

  sig-Writes :
      (wanted writable : Bool) (path text : Text) (r : Run S)
      → (wanted ≡ false → Writes r)
      → Writes (if wanted then then_write c writable (Output.written path text) r else r)
  sig-Writes true true path text r g h = tt
  sig-Writes true false path text r g h = absurd (cc)
  sig-Writes false writable path text r g h = g refl h

  ir-wanted :
      (emit_ir emit_sig exports : Bool) (out : Option Text)
      → (emit_sig || (is_some out && exports)) ≡ false
      → out ≡ none
      → (emit_ir || (not emit_sig && not (is_some out))) ≡ true
  ir-wanted emit_ir true exports out h e = absurd (cc)
  ir-wanted true false exports out h e = refl
  ir-wanted false false exports none h e = refl
  ir-wanted false false exports (some p) h e = absurd (cc)

  pub write_outputs-Writes :
      (o : Options) (input_path : Text) (s : S) → Writes (write_outputs c o input_path s)
  unfolding write_outputs write_module
  write_outputs-Writes o input_path s =
      sig-Writes (wants_sig c o s) (c.writes (sig_path o.output_path input_path)) _ _
        (write_module c o s)
        λ no_sig.
          module-Writes (wants_ir c o) o.output_path s
            (ir-wanted o.emit_ir o.emit_sig (c.has_exports s) o.output_path no_sig)
