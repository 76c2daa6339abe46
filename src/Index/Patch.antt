-- ===== src/Index/Patch.antt =====
-- src/bin/mcp_server.rs: what `patch_symbol` replaces, and what `run_symbol_tests` tells of the failures.
use llmlang.Prelude.{
  ◌≡◌, refl, sym, ap, ◌∙◌, Bool, true, false, not, ◌&&◌, Text, text_eq, text_eq_iff, List, [], ◌∷◌,
  ◌++◌, Option, none, some, arith, Bool-cases, inl, inr, if◌then◌else◌, lookup, insert,
  lookup-insert,
}
use llmlang.Ast.{Param, Expr}
use llmlang.Testing.{TestResult}
use llmlang.Index.Tools.{replace_body, failure_map}
use llmlang.Index.Replace.{defined_in}

-- The list before and after a body of a name is exchanged: the first definition of the name, with what
-- stands around it.
pub record Exchange (f : Text) (body : Expr) (es es' : List Expr) : Type 0 where
  pub before : List Expr
  pub after : List Expr
  pub params : List Param
  pub old : Expr
  pub exported : Bool
  pub was : es ≡ before ++ (Expr.define f params old exported ∷ after)
  pub is : es' ≡ before ++ (Expr.define f params body exported ∷ after)
  pub is_first : (hash : Text → Text) (path : Text) → defined_in hash path f before ≡ []

-- What a replacement is to be.
abbrev pub Replaces : Text → Expr → List Expr → Option (List Expr) → Type 0
Replaces f body es (some es') = Exchange f body es es'
Replaces f body es none = (hash : Text → Text) (path : Text) → defined_in hash path f es ≡ []

text_eq_other : (a b : Text) → text_eq a b ≡ false → text_eq b a ≡ false
text_eq_other a b h = ground (arith, text_eq_iff a b, text_eq_iff b a)

skip-Replaces :
    (f : Text) (body e : Expr) (es : List Expr) (o : Option (List Expr))
    → ((hash : Text → Text) (path : Text) (xs : List Expr)
        → defined_in hash path f (e ∷ xs) ≡ defined_in hash path f xs)
    → Replaces f body es o
    → Replaces f body
        (e ∷ es)
        (elim o as (λ _. Option (List Expr)) [ none ↦ none | some r ↦ some (e ∷ r) ])
skip-Replaces f body e es none other h = λ hash path. other hash path es ∙ h hash path
skip-Replaces f body e es (some r) other h = record {
  before = e ∷ h.before;
  after = h.after;
  params = h.params;
  old = h.old;
  exported = h.exported;
  was = ap (λ xs. e ∷ xs) h.was;
  is = ap (λ xs. e ∷ xs) h.is;
  is_first = λ hash path. other hash path h.before ∙ h.is_first hash path;
}

-- The replacement of a body exchanges the body of the first definition of the name, and nothing else of
-- the module; it fails exactly where the index would have no definition of the name from the module.
pub replace_body-Replaces :
    (f : Text) (body : Expr) (es : List Expr) → Replaces f body es (replace_body f body es)
unfolding replace_body
replace_body-Replaces f body [] = λ hash path. refl
replace_body-Replaces f body (Expr.define n ps old ex ∷ es) = elim (Bool-cases (text_eq n f)) [
  | inl e ↦
      let same = (text_eq_iff n f).0 e in
      rw e (record {
        before = [];
        after = es;
        params = ps;
        old = old;
        exported = ex;
        was = ap (λ m. Expr.define m ps old ex ∷ es) same;
        is = ap (λ m. Expr.define m ps body ex ∷ es) same;
        is_first = λ hash path. refl;
      })
  | inr e ↦ rw e (
      skip-Replaces f body (Expr.define n ps old ex) es (replace_body f body es)
        (λ hash path xs. rw (text_eq_other n f e) refl) (replace_body-Replaces f body es))
]
replace_body-Replaces f body (e ∷ es) =
    skip-Replaces f body e es (replace_body f body es) (λ hash path xs. refl)
      (replace_body-Replaces f body es)

abbrev pub or_found : Option TestResult → Option TestResult → Option TestResult
or_found (some r) o = some r
or_found none o = o

or_found_assoc : (a b c : Option TestResult) → or_found (or_found a b) c ≡ or_found a (or_found b c)
or_found_assoc none b c = refl
or_found_assoc (some r) b c = refl

or_found-none : (a : Option TestResult) → or_found a none ≡ a
or_found-none none = refl
or_found-none (some r) = refl

-- The last failed result with a fingerprint.
abbrev pub last_failure : Text → List TestResult → Option TestResult
last_failure fp [] = none
last_failure fp (r ∷ rs) =
    or_found (last_failure fp rs)
      (if not r.passed && text_eq r.fingerprint fp then some r else none)

found-here :
    (b : Bool) (r : TestResult) (o : Option TestResult)
    → (if b then some r else o) ≡ or_found (if b then some r else none) o
found-here true r o = refl
found-here false r o = refl

lookup-failure_map :
    (fp : Text) (rs : List TestResult) (m : List (Text × TestResult))
    → lookup fp (failure_map rs m) ≡ or_found (last_failure fp rs) (lookup fp m)
unfolding failure_map
lookup-failure_map fp [] m = refl
lookup-failure_map fp (r ∷ rs) m = elim (Bool-cases r.passed) [
  | inl e ↦
      simp e
        (lookup-failure_map fp rs m ∙ sym (or_found_assoc (last_failure fp rs) none (lookup fp m)))
  | inr e ↦ simp e (
      lookup-failure_map fp rs (insert r.fingerprint r m)
      ∙ ap (or_found (last_failure fp rs)) (
          lookup-insert r.fingerprint fp r m
          ∙ found-here (text_eq r.fingerprint fp) r (lookup fp m))
      ∙ sym (
          or_found_assoc (last_failure fp rs) (if text_eq r.fingerprint fp then some r else none)
            (lookup fp m)))
]

-- The failures that are reported by fingerprint hold, for each fingerprint, the last failed result of
-- a test with it, and none if there is no such result.
pub failure_map-last :
    (fp : Text) (rs : List TestResult) → lookup fp (failure_map rs []) ≡ last_failure fp rs
unfolding lookup
failure_map-last fp rs = lookup-failure_map fp rs [] ∙ or_found-none (last_failure fp rs)
