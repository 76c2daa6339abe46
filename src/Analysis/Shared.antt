-- ===== src/Analysis/Shared.antt =====
-- src/compiler/analysis/mod.rs: what a structural fingerprint depends on.
use llmlang.Prelude.{◌+◌, ◌≡◌, refl, ap, Text, codes, List, [], ◌∷◌, ◌++◌, map, print_decimal}
use llmlang.Ast.{Param, Expr, Exprs}
use llmlang.Analysis.Fingerprint.{
  collect_fingerprint, collect_args, structural_fingerprint, push_str, push_each, length_args,
  debug_name,
}
use llmlang.Analysis.Rename.{rename, rename_args, rename_param}

module _ (f g : Text → Text) (keep : (s : Text) → g s ≡ s) where
  params-rename :
      (mark : Text) (ps : List Param) (s : Text)
      → push_each mark (map (rename_param f) ps) s ≡ push_each mark ps s
  unfolding push_each push_str
  params-rename mark [] s = refl
  params-rename mark (p ∷ ps) s = params-rename mark ps (s ++ mark)

  length-rename : (es : Exprs) → length_args (rename_args f g es) ≡ length_args es
  unfolding rename
  length-rename Exprs.nil = refl
  length-rename (Exprs.cons e es) = ap (λ n. 1 + n) (length-rename es)

  mutual
    unfolding collect_fingerprint rename push_str

    collect-rename :
        (e : Expr) (s : Text) → collect_fingerprint (rename f g e) s ≡ collect_fingerprint e s
    collect-rename (Expr.integer _) s = refl
    collect-rename (Expr.float _) s = refl
    collect-rename (Expr.de_bruijn i) s = refl
    collect-rename (Expr.identifier _) s = refl
    collect-rename (Expr.binary_op op l r) s =
        rw (collect-rename l (s ++ debug_name op))
          (collect-rename r (collect_fingerprint l (s ++ debug_name op)))
    collect-rename (Expr.apply _ args) s =
        rw (length-rename args)
          (args-rename args (s ++ (codes "@" ++ print_decimal (length_args args))))
    collect-rename (Expr.move e) s = collect-rename e (s ++ codes ">")
    collect-rename (Expr.borrow e) s = collect-rename e (s ++ codes "$")
    collect-rename (Expr.mut_borrow e) s = collect-rename e (s ++ codes "~")
    collect-rename (Expr.define _ params body _) s =
        rw (params-rename (codes "p") params (s ++ codes ":"))
          (collect-rename body (push_each (codes "p") params (s ++ codes ":")))
    collect-rename (Expr.shape _ fields _) s = refl
    collect-rename (Expr.new _ count) s = collect-rename count (s ++ codes "N")
    collect-rename (Expr.get i _ idx) s =
        rw (collect-rename i (s ++ codes "G"))
          (collect-rename idx (collect_fingerprint i (s ++ codes "G")))
    collect-rename (Expr.set i _ idx v) s =
        rw
          (
            collect-rename i (s ++ codes "S"),
            collect-rename idx (collect_fingerprint i (s ++ codes "S")),
          )
          (collect-rename v (collect_fingerprint idx (collect_fingerprint i (s ++ codes "S"))))
    collect-rename (Expr.if_else c t e₀) s =
        rw
          (
            collect-rename c (s ++ codes "?"),
            collect-rename t (collect_fingerprint c (s ++ codes "?")),
          )
          (collect-rename e₀ (collect_fingerprint t (collect_fingerprint c (s ++ codes "?"))))
    collect-rename (Expr.expand _) s = refl
    collect-rename (Expr.let_in _ v b) s =
        rw (collect-rename v (s ++ codes "L"))
          (collect-rename b (collect_fingerprint v (s ++ codes "L")))
    collect-rename (Expr.import _ _ _) s = refl
    collect-rename (Expr.string _) s = refl
    collect-rename (Expr.seq l r) s =
        rw (collect-rename l (s ++ codes "."))
          (collect-rename r (collect_fingerprint l (s ++ codes ".")))
    collect-rename (Expr.pack e) s = collect-rename e (s ++ codes "jp")
    collect-rename (Expr.unpack e shape) s =
        rw (keep shape) (collect-rename e ((s ++ codes "ju") ++ shape))
    collect-rename (Expr.otel_emit t a₁ a₂ a₃) s =
        rw
          (
            collect-rename t (s ++ codes "oe"),
            collect-rename a₁ (collect_fingerprint t (s ++ codes "oe")),
            collect-rename a₂ (collect_fingerprint a₁ (collect_fingerprint t (s ++ codes "oe"))),
          )
          (collect-rename a₃ (
            collect_fingerprint a₂
              (collect_fingerprint a₁ (collect_fingerprint t (s ++ codes "oe")))))
    collect-rename (Expr.map e _ e₀) s =
        rw (collect-rename e (s ++ codes "map"))
          (collect-rename e₀ (collect_fingerprint e (s ++ codes "map")))
    collect-rename (Expr.filter e e₀) s =
        rw (collect-rename e (s ++ codes "flt"))
          (collect-rename e₀ (collect_fingerprint e (s ++ codes "flt")))
    collect-rename (Expr.http_client m u b) s =
        rw
          (
            collect-rename m (s ++ codes "http"),
            collect-rename u (collect_fingerprint m (s ++ codes "http")),
          )
          (collect-rename b (collect_fingerprint u (collect_fingerprint m (s ++ codes "http"))))
    collect-rename (Expr.http_server op arg) s =
        rw (collect-rename op (s ++ codes "srv"))
          (collect-rename arg (collect_fingerprint op (s ++ codes "srv")))
    collect-rename (Expr.http_header req name) s =
        rw (collect-rename req (s ++ codes "hdr"))
          (collect-rename name (collect_fingerprint req (s ++ codes "hdr")))
    collect-rename _ s = refl

    args-rename : (es : Exprs) (s : Text) → collect_args (rename_args f g es) s ≡ collect_args es s
    args-rename Exprs.nil s = refl
    args-rename (Exprs.cons e es) s =
        rw (collect-rename e s) (args-rename es (collect_fingerprint e s))

-- Renaming the functions, the variables and the parameters of an expression leaves its structural
-- fingerprint as it is.
pub fingerprint-rename :
    (f : Text → Text) (e : Expr)
    → structural_fingerprint (rename f (λ s. s) e) ≡ structural_fingerprint e
unfolding structural_fingerprint
fingerprint-rename f e = collect-rename f (λ s. s) (λ s. refl) e []
