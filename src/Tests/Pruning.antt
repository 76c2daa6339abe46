-- ===== src/Tests/Pruning.antt =====
-- The analyses at concrete inputs.
use llmlang.Prelude.{
  ◌≡◌, refl, sym, subst, ◌∙◌, ◌↔◌, false, Text, codes, List, [], ◌∷◌, ◌++◌, some, Memᴰ,
}
use llmlang.Prelude.Int.{pos}
use llmlang.Ast.{Expr, Exprs}
use llmlang.Analysis.{get_calls, structural_fingerprint, unwrap_metadata, prune_dead_code}
use llmlang.Analysis.Rename.{rename}
use llmlang.Analysis.Reach.{DistinctNames, declare_name}
use llmlang.Analysis.Kept.{Wanted, prune_dead_code-Wanted, calls_kept}
use llmlang.Analysis.Mentions.{Mentions}
use llmlang.Analysis.Names.{get_calls-iff_Mentions}
use llmlang.Analysis.Shared.{fingerprint-rename}

-- `main` calls `f`; nothing calls `ff`.
abbrev main : Expr
main =
    Expr.define (codes "main") []
      (Expr.apply (Expr.identifier (codes "f")) (Exprs.cons (Expr.integer (pos 1)) Exprs.nil)) false

abbrev f : Expr
f = Expr.define (codes "f") [] (Expr.integer (pos 1)) false

abbrev g : Expr
g = Expr.define (codes "ff") [] (Expr.integer (pos 2)) false

abbrev program : List Expr
program = main ∷ f ∷ g ∷ []

at :
    {d : Expr} (x : Expr) {n : Text}
    → d ≡ x
    → declare_name (unwrap_metadata d) ≡ some n
    → declare_name (unwrap_metadata x) ≡ some n
at x {n} same h = subst (λ (o : Expr). declare_name (unwrap_metadata o) ≡ some n) same h

program-DistinctNames : DistinctNames program
program-DistinctNames d e n (Memᴰ.head p) (Memᴰ.head q) a b = p ∙ sym q
program-DistinctNames d e n (Memᴰ.head p) (Memᴰ.tail (Memᴰ.head q)) a b =
    let l = at main p a in let r = at f q b in cc
program-DistinctNames d e n (Memᴰ.head p) (Memᴰ.tail (Memᴰ.tail (Memᴰ.head q))) a b =
    let l = at main p a in let r = at g q b in cc
program-DistinctNames d e n (Memᴰ.head p) (Memᴰ.tail (Memᴰ.tail (Memᴰ.tail q))) a b = elim q [ ]
program-DistinctNames d e n (Memᴰ.tail (Memᴰ.head p)) (Memᴰ.head q) a b =
    let l = at f p a in let r = at main q b in cc
program-DistinctNames d e n (Memᴰ.tail (Memᴰ.head p)) (Memᴰ.tail (Memᴰ.head q)) a b = p ∙ sym q
program-DistinctNames d e n (Memᴰ.tail (Memᴰ.head p)) (Memᴰ.tail (Memᴰ.tail (Memᴰ.head q))) a b =
    let l = at f p a in let r = at g q b in cc
program-DistinctNames d e n (Memᴰ.tail (Memᴰ.head p)) (Memᴰ.tail (Memᴰ.tail (Memᴰ.tail q))) a b =
    elim q [ ]
program-DistinctNames d e n (Memᴰ.tail (Memᴰ.tail (Memᴰ.head p))) (Memᴰ.head q) a b =
    let l = at g p a in let r = at main q b in cc
program-DistinctNames d e n (Memᴰ.tail (Memᴰ.tail (Memᴰ.head p))) (Memᴰ.tail (Memᴰ.head q)) a b =
    let l = at g p a in let r = at f q b in cc
program-DistinctNames d e n (Memᴰ.tail (Memᴰ.tail (Memᴰ.head p)))
      (Memᴰ.tail (Memᴰ.tail (Memᴰ.head q))) a b =
    p ∙ sym q
program-DistinctNames d e n (Memᴰ.tail (Memᴰ.tail (Memᴰ.head p)))
      (Memᴰ.tail (Memᴰ.tail (Memᴰ.tail q))) a b =
    elim q [ ]
program-DistinctNames d e n (Memᴰ.tail (Memᴰ.tail (Memᴰ.tail p))) q a b = elim p [ ]

prune_dead_code-Wanted_example :
    (kept : List Expr) × (prune_dead_code program ≡ some kept)
    × ((e : Expr) → Memᴰ e kept ↔ (Memᴰ e program × Wanted program (unwrap_metadata e)))
prune_dead_code-Wanted_example = prune_dead_code-Wanted program program-DistinctNames

pruned : prune_dead_code program ≡ some (main ∷ f ∷ [])
unfolding prune_dead_code
pruned = refl

main-Mentions : Mentions (codes "f") main
main-Mentions =
    Mentions.inside (Memᴰ.head refl) (Mentions.inside (Memᴰ.head refl) (Mentions.here refl))

calls_kept_example : Memᴰ f (main ∷ f ∷ [])
calls_kept_example =
    calls_kept program (main ∷ f ∷ []) program-DistinctNames pruned main f (codes "main")
      (codes "f") (Memᴰ.head refl) refl main-Mentions (Memᴰ.tail (Memᴰ.head refl)) refl

get_calls-iff_Mentions_example : Memᴰ (codes "f") (get_calls main) ↔ Mentions (codes "f") main
get_calls-iff_Mentions_example = get_calls-iff_Mentions (codes "f") main

abbrev prefixed : Text → Text
prefixed name = codes "m_" ++ name

fingerprint-rename_example :
    structural_fingerprint (rename prefixed (λ s. s) main) ≡ structural_fingerprint main
fingerprint-rename_example = fingerprint-rename prefixed main

-- A function that is called inside of `cat` only is pruned.
cat_test :
    prune_dead_code (
      Expr.define
        (codes "main")
        []
        (Expr.cat (Expr.apply (Expr.identifier (codes "f")) Exprs.nil) (Expr.string []))
        false
      ∷ f
      ∷ [])
    ≡ some (
        Expr.define
          (codes "main")
          []
          (Expr.cat (Expr.apply (Expr.identifier (codes "f")) Exprs.nil) (Expr.string []))
          false
        ∷ [])
unfolding prune_dead_code
cat_test = refl
