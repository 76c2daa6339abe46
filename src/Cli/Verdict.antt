-- ===== src/Cli/Verdict.antt =====
-- src/main.rs `run_test_command`: what its exit code says.
use llmlang.Prelude.{
  ◌≡◌, refl, sym, ap, subst, ◌↔◌, ◌⊎◌, inl, inr, Bool, true, false, not, ◌&&◌, Text, codes, text_eq,
  text_eq_iff, List, [], ◌∷◌, Option, none, some, All, arith, if◌then◌else◌,
}
use llmlang.Error.{Result, ok, err}
use llmlang.Testing.{TestReport}
use llmlang.Cli.Args.{Ended, exit}
use llmlang.Cli.TestArgs.{
  TestOptions, no_test_options, parse_test_options, TestHost, total_failed, target_files, run_files,
  ended, run_path, run_options, run_test_command,
}

module _ (h : TestHost) where
  -- The run of the file's tests ends with a report, in which none failed.
  abbrev pub Passes : TestOptions → Text → Type 0
  Passes o file =
      (r : TestReport) × (h.run_tests file o.test_data_dir o.import_paths ≡ some (ok r))
      × (r.failed ≡ 0)

  abbrev pub AllPass : TestOptions → Option Text → Type 0
  AllPass o none = ⊥
  AllPass o (some path) =
      (is_dir : Bool) × (h.metadata path ≡ ok is_dir) × All (Passes o) (target_files h path is_dir)

  abbrev NoneFailed : Option (Result Text (List TestReport)) → Type 0
  NoneFailed none = ⊥
  NoneFailed (some (err e)) = ⊥
  NoneFailed (some (ok rs)) = total_failed rs ≡ 0

  ended-NoneFailed :
      (r : Option (Result Text (List TestReport))) → (ended h r ≡ exit 0) ↔ NoneFailed r
  unfolding ended
  ended-NoneFailed none = ground arith
  ended-NoneFailed (some (err e)) = ground arith
  ended-NoneFailed (some (ok rs)) = ground arith

  -- One file's run in front of the runs of the others.
  abbrev after_report :
      Option (Result Text TestReport)
      → Option (Result Text (List TestReport))
      → Option (Result Text (List TestReport))
  after_report none later = none
  after_report (some (err e)) later = some (err e)
  after_report (some (ok r)) none = none
  after_report (some (ok r)) (some (err e)) = some (err e)
  after_report (some (ok r)) (some (ok rs)) = some (ok (r ∷ rs))

  after_report-NoneFailed :
      (x : Option (Result Text TestReport)) (later : Option (Result Text (List TestReport)))
      → NoneFailed (after_report x later)
        ↔ (((r : TestReport) × (x ≡ some (ok r)) × (r.failed ≡ 0)) × NoneFailed later)
  unfolding total_failed
  after_report-NoneFailed none later = (λ n. absurd n, λ p. absurd (cc (p.0.1)))
  after_report-NoneFailed (some (err e)) later = (λ n. absurd n, λ p. absurd (cc (p.0.1)))
  after_report-NoneFailed (some (ok r)) none = (λ n. absurd n, λ p. absurd p.1)
  after_report-NoneFailed (some (ok r)) (some (err e)) = (λ n. absurd n, λ p. absurd p.1)
  after_report-NoneFailed (some (ok r)) (some (ok rs)) = (
    λ n. ((r, refl, omega (arith, n)), omega (arith, n)),
    λ ((r', e, f), n).
        let same : r ≡ r' = cc in omega (arith, f, n, ap (λ (t : TestReport). t.failed) same),
  )

  run_files-cons :
      (o : TestOptions) (file : Text) (files : List Text)
      → run_files h o (file ∷ files)
        ≡ after_report (h.run_tests file o.test_data_dir o.import_paths) (run_files h o files)
  unfolding run_files
  run_files-cons o file files = ground arith

  run_files-NoneFailed :
      (o : TestOptions) (files : List Text)
      → NoneFailed (run_files h o files) ↔ All (Passes o) files
  unfolding run_files total_failed
  run_files-NoneFailed o [] = (λ _. tt, λ _. refl)
  run_files-NoneFailed o (file ∷ files) =
      let later = run_files-NoneFailed o files in
      let here =
        after_report-NoneFailed (h.run_tests file o.test_data_dir o.import_paths)
          (run_files h o files) in
      rw (run_files-cons o file files)
        (λ n. ((here.0 n).0, later.0 (here.0 n).1), λ p. here.1 (p.0, later.1 p.1))

  run_path-exit :
      (o : TestOptions) (path : Text) → (run_path h o path ≡ exit 0) ↔ AllPass o (some path)
  unfolding run_path
  run_path-exit o path = at (h.metadata path)
    where
      at :
          (m : Result Text Bool)
          → ((elim m [
            | err e ↦ exit 1
            | ok is_dir ↦ ended h (run_files h o (target_files h path is_dir))
          ])
              ≡ exit 0)
            ↔ ((is_dir : Bool) × (m ≡ ok is_dir) × All (Passes o) (target_files h path is_dir))
      at (err e) = (λ z. absurd (ground arith), λ (_, z, _). absurd (cc (z)))
      at (ok is_dir) =
          let files = target_files h path is_dir in
          let run = ended-NoneFailed (run_files h o files) in
          let each = run_files-NoneFailed o files in
          (
            λ z. (is_dir, refl, each.0 (run.0 z)),
            λ (d, e, all).
                let same : is_dir ≡ d = cc in
                run.1 (each.1 (subst (λ b. All (Passes o) (target_files h path b)) (sym same) all)),
          )

  -- The format is one of the two, and there is a path whose files all pass.
  abbrev pub Succeeds : TestOptions → Type 0
  Succeeds o = ((o.format ≡ codes "text") ⊎ (o.format ≡ codes "json")) × AllPass o o.path

  accepted :
      (a b : Bool) (e : Ended)
      → ((if not a && not b then exit 1 else e) ≡ exit 0)
        ↔ (((a ≡ true) ⊎ (b ≡ true)) × (e ≡ exit 0))
  accepted true b e = (λ z. (inl refl, z), λ p. p.1)
  accepted false true e = (λ z. (inr refl, z), λ p. p.1)
  accepted false false e = ground arith

  path-exit :
      (o : TestOptions) (p : Option Text)
      → ((elim p [ none ↦ exit 1 | some path ↦ run_path h o path ]) ≡ exit 0) ↔ AllPass o p
  path-exit o none = ground arith
  path-exit o (some path) = run_path-exit o path

  options-exit : (o : TestOptions) → (run_options h o ≡ exit 0) ↔ Succeeds o
  unfolding run_options
  options-exit o =
      let is_text = text_eq_iff o.format (codes "text") in
      let is_json = text_eq_iff o.format (codes "json") in
      let formats =
        accepted (text_eq o.format (codes "text")) (text_eq o.format (codes "json"))
          (elim o.path [ none ↦ exit 1 | some path ↦ run_path h o path ]) in
      let path = path-exit o o.path in
      (
        λ z.
            let (f, p) = formats.0 z in
            (elim f [ inl e ↦ inl (is_text.0 e) | inr e ↦ inr (is_json.0 e) ], path.0 p),
        λ (f, p).
            formats.1 (elim f [ inl e ↦ inl (is_text.1 e) | inr e ↦ inr (is_json.1 e) ], path.1 p),
      )

  -- `llmlang test` exits with 0 exactly if its arguments are read without an error, the format is `text`
  -- or `json`, and there is a path that exists and each file of which, itself or the files under it with
  -- the extension `llm`, gives a report in which no test failed.
  pub run_test_command-exit :
      (args : List Text)
      → (run_test_command h args ≡ exit 0)
        ↔ ((o : TestOptions) × (parse_test_options args no_test_options ≡ ok o) × Succeeds o)
  unfolding run_test_command
  run_test_command-exit args = at (parse_test_options args no_test_options)
    where
      at :
          (m : Result Text TestOptions)
          → ((elim m [ err e ↦ exit 1 | ok o ↦ run_options h o ]) ≡ exit 0)
            ↔ ((o : TestOptions) × (m ≡ ok o) × Succeeds o)
      at (err e) = (λ z. absurd (ground arith), λ (_, z, _). absurd (cc (z)))
      at (ok o) = (
        λ z. (o, refl, (options-exit o).0 z),
        λ (o', e, s). let same : o ≡ o' = cc in (options-exit o).1 (subst Succeeds (sym same) s),
      )
