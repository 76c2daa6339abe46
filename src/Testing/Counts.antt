-- ===== src/Testing/Counts.antt =====
-- src/testing/mod.rs: what the report of `run_tests` says.
use llmlang.Prelude.{
  ℕ, suc, ◌+◌, ◌≡◌, refl, ap, subst, ◌↔◌, ◌∙◌, true, Text, List, [], ◌∷◌, ◌++◌, Option, none, some,
  map, length, arith, Bool-cases, inl, inr, append-nil, append_assoc, All, if◌then◌else◌,
}
use llmlang.Ast.{Expr}
use llmlang.Error.{Result, ok, err}
use llmlang.Testing.Discovery.{DiscoveredTest, discover_tests}
use llmlang.Testing.Process.{TestResult, reported, result_of, run_single_test}
use llmlang.Testing.Harness.{compile_harness}
use llmlang.Testing.Runner.{
  TestReport, Suite, success, count_result, new_report, run_each, parse_file, run_discovered,
  run_tests, some_ok, data_dir_of, make_work_dir, run_binary, compile_and_run, discover_and_run,
}

-- How many of the results are passed, and how many are not.
abbrev pub passes : List TestResult → ℕ
passes [] = 0
passes (r ∷ rs) = (if r.passed then 1 else 0) + passes rs

abbrev pub failures : List TestResult → ℕ
failures [] = 0
failures (r ∷ rs) = (if r.passed then 0 else 1) + failures rs

passes-failures : (rs : List TestResult) → passes rs + failures rs ≡ length rs
passes-failures [] = refl
passes-failures (r ∷ rs) = ground (arith, passes-failures rs)

no-failures : (rs : List TestResult) → failures rs ≡ 0 → All (λ r. r.passed ≡ true) rs
no-failures [] h = tt
no-failures (r ∷ rs) h = elim (Bool-cases r.passed) [
  | inl e ↦ (e, no-failures rs (ground arith))
  | inr e ↦ absurd (ground arith)
]

All-passed : (rs : List TestResult) → All (λ r. r.passed ≡ true) rs → failures rs ≡ 0
All-passed [] h = refl
All-passed (r ∷ rs) h = omega (arith, All-passed rs h.1, ap (λ b. if b then ◌+◌ 0 0 else 1) h.0)

same-length :
    {A B C : Type 0} (f : A → C) (g : B → C) (xs : List A) (ys : List B)
    → map f xs ≡ map g ys
    → length xs ≡ length ys
same-length f g [] [] h = refl
same-length f g [] (y ∷ ys) h = absurd (cc)
same-length f g (x ∷ xs) [] h = absurd (cc)
same-length f g (x ∷ xs) (y ∷ ys) h = ap suc (same-length f g xs ys (cc))

-- What a result says of the test that it is the result of.
abbrev pub identity_of_result : TestResult → Text × Text
identity_of_result r = (r.name, r.fingerprint)

abbrev pub identity_of_test : DiscoveredTest → Text × Text
identity_of_test t = (t.name, t.fingerprint)

module _ {S : Type 0} (s : Suite S) where
  single-identity :
      (bin data_dir : Text) (t : DiscoveredTest)
      → identity_of_result (run_single_test s.spawn bin t data_dir) ≡ identity_of_test t
  unfolding run_single_test result_of reported
  single-identity bin data_dir t = ground arith

  abbrev run : Text → Text → List DiscoveredTest → List TestResult
  run bin data_dir ts = map (λ t. run_single_test s.spawn bin t data_dir) ts

  abbrev add_results : List TestResult → TestReport → TestReport
  add_results rs report = record report {
    passed = report.passed + passes rs;
    failed = report.failed + failures rs;
    results = report.results ++ rs;
  }

  count-add :
      (r : TestResult) (rs : List TestResult) (report : TestReport)
      → add_results rs (count_result r report) ≡ add_results (r ∷ rs) report
  unfolding count_result
  count-add r rs report = ground (arith, append_assoc report.results (r ∷ []) rs)

  run_each-add :
      (bin data_dir : Text) (ts : List DiscoveredTest) (report : TestReport)
      → run_each s bin data_dir ts report ≡ add_results (run bin data_dir ts) report
  unfolding run_each
  run_each-add bin data_dir [] report = ground (arith, append-nil report.results)
  run_each-add bin data_dir (t ∷ ts) report =
      run_each-add bin data_dir ts _ ∙ count-add _ (run bin data_dir ts) report

  some_ok-inverted :
      {A : Type 0} (r : Option (Result Text A)) (f : A → Option (Result Text TestReport))
      {report : TestReport}
      → some_ok s r f ≡ some (ok report)
      → (a : A) × (r ≡ some (ok a)) × (f a ≡ some (ok report))
  some_ok-inverted none f h = absurd (cc)
  some_ok-inverted (some (err e)) f h = absurd (cc)
  some_ok-inverted (some (ok a)) f h = (a, refl, h)

  done :
      {a b : TestReport}
      → ◌≡◌ {A = Option (Result Text TestReport)} (some (ok a)) (some (ok b))
      → a ≡ b
  done h = cc

  abbrev Reports : Text → List DiscoveredTest → TestReport → Type 0
  Reports source_path tests report =
      (report.file ≡ source_path)
      × (report.total ≡ length tests)
      × (report.passed ≡ passes report.results)
      × (report.failed ≡ failures report.results)
      × (map identity_of_result report.results ≡ map identity_of_test tests)

  run-identities :
      (bin data_dir : Text) (ts : List DiscoveredTest)
      → map identity_of_result (run bin data_dir ts) ≡ map identity_of_test ts
  run-identities bin data_dir [] = refl
  run-identities bin data_dir (t ∷ ts) =
      cc (single-identity bin data_dir t, run-identities bin data_dir ts)

  run_each-Reports :
      (source_path bin data_dir : Text) (ts : List DiscoveredTest)
      → Reports source_path ts (run_each s bin data_dir ts (new_report source_path ts))
  unfolding new_report
  run_each-Reports source_path bin data_dir ts =
      rw (run_each-add bin data_dir ts (new_report source_path ts))
        (refl, refl, omega arith, omega arith, run-identities bin data_dir ts)

  discovered-Reports :
      (source_path : Text) (test_data_dir : Option Text) (import_paths : List Text)
      (tests : List DiscoveredTest) (production : List Expr) (report : TestReport)
      → run_discovered s source_path test_data_dir import_paths (tests, production)
        ≡ some (ok report)
      → Reports source_path tests report
  unfolding run_discovered compile_and_run run_binary
  discovered-Reports source_path test_data_dir import_paths [] production report h =
      subst (Reports source_path []) (done h) (refl, refl, refl, refl, refl)
  discovered-Reports source_path test_data_dir import_paths (t ∷ ts) production report h =
      let (_, made, compiled) =
        some_ok-inverted (make_work_dir s)
          (λ _. compile_and_run s source_path test_data_dir import_paths (t ∷ ts) production) h in
      let (bin, built, ran) =
        some_ok-inverted
          (compile_harness s.backend source_path production (t ∷ ts) import_paths s.work_dir)
          (run_binary s source_path test_data_dir (t ∷ ts)) compiled in
      subst (Reports source_path (t ∷ ts)) (done ran)
        (run_each-Reports source_path bin (data_dir_of s test_data_dir) (t ∷ ts))

  -- A report that `run_tests` returns is about the tests that `discover_tests` finds in the parsed file:
  -- it has their number as the total, one result for each of them, in their order, with its name and its
  -- fingerprint, and it counts the passed and the failed results, which together are all. It is a
  -- success exactly if every result is passed.
  pub run_tests-counts :
      (source_path : Text) (test_data_dir : Option Text) (import_paths : List Text)
      (report : TestReport)
      → run_tests s source_path test_data_dir import_paths ≡ some (ok report)
      → (exprs : List Expr) × (tests : List DiscoveredTest) × (production : List Expr) × (parse_file
            s source_path import_paths
          ≡ some (ok exprs))
        × (discover_tests s.hash exprs ≡ ok (tests, production))
        × (report.file ≡ source_path)
        × (report.total ≡ length tests)
        × (map identity_of_result report.results ≡ map identity_of_test tests)
        × (report.passed ≡ passes report.results)
        × (report.passed + report.failed ≡ report.total)
        × ((success report ≡ true) ↔ All (λ r. r.passed ≡ true) report.results)
  unfolding run_tests discover_and_run success
  run_tests-counts source_path test_data_dir import_paths report h =
      let (exprs, parsed, discovered) =
        some_ok-inverted (parse_file s source_path import_paths)
          (discover_and_run s source_path test_data_dir import_paths) h in
      let ((tests, production), found, ran) =
        some_ok-inverted (some (discover_tests s.hash exprs))
          (run_discovered s source_path test_data_dir import_paths) discovered in
      let (file, total, passed, failed, same) =
        discovered-Reports source_path test_data_dir import_paths tests production report ran in
      (
        exprs,
        tests,
        production,
        parsed,
        cc,
        file,
        total,
        same,
        passed,
        omega (
          arith,
          passed,
          failed,
          total,
          passes-failures report.results,
          same-length identity_of_result identity_of_test report.results tests same,
        ),
        (
          λ win. no-failures report.results (ground (arith, failed)),
          λ all. ground (arith, failed, All-passed report.results all),
        ),
      )
