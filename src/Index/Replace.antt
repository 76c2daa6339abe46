-- ===== src/Index/Replace.antt =====
-- src/bin/mcp_server.rs: indexing a file replaces what was indexed from it, and nothing else.
use llmlang.Prelude.{inr}
use llmlang.Prelude.{inl}
use llmlang.Prelude.{Bool-cases}
use llmlang.Prelude.{text_eq_iff}
use llmlang.Prelude.{◌≢◌}
use llmlang.Prelude.{
  ℕ, ◌+◌, ◌≡◌, refl, sym, ◌∙◌, Bool, true, false, Text, text_eq, List, [], ◌∷◌, ◌++◌, append-nil,
  append_assoc, if◌then◌else◌, arith,
}
use llmlang.Ast.{Expr}
use llmlang.Index.Codebase.{
  SymbolMetadata, CodebaseIndex, retain_others, purge_file, push_entry, insert_shape, metadata_of,
  index_from, index_exprs,
}

pushed :
    (b : Bool) (xs : List SymbolMetadata) (m : SymbolMetadata) (ys : List SymbolMetadata)
    → (if b then xs ++ (m ∷ []) else xs) ++ ys ≡ xs ++ (if b then m ∷ ys else ys)
pushed true xs m ys = append_assoc xs (m ∷ []) ys
pushed false xs m ys = refl

-- The second list has the entries of the first one whose path is another one, in their order.
pub data OtherFiles (path : Text) : List SymbolMetadata → List SymbolMetadata → Type 0 where
  none : OtherFiles path [] []
  kept :
      {m : SymbolMetadata} {ms os : List SymbolMetadata}
      → m.path ≢ path
      → OtherFiles path ms os
      → OtherFiles path (m ∷ ms) (m ∷ os)
  dropped :
      {m : SymbolMetadata} {ms os : List SymbolMetadata}
      → m.path ≡ path
      → OtherFiles path ms os
      → OtherFiles path (m ∷ ms) os

retain_others-OtherFiles :
    (path : Text) (ms : List SymbolMetadata) → OtherFiles path ms (retain_others path ms)
unfolding retain_others
retain_others-OtherFiles path [] = OtherFiles.none
retain_others-OtherFiles path (m ∷ ms) = elim (Bool-cases (text_eq m.path path)) [
  | inl e ↦
      rw (e, retain_others)
        (OtherFiles.dropped ((text_eq_iff m.path path).0 e) (retain_others-OtherFiles path ms))
  | inr e ↦ rw (e, retain_others) (OtherFiles.kept (differs m e) (retain_others-OtherFiles path ms))
]
  where
    differs : (m : SymbolMetadata) → text_eq m.path path ≡ false → m.path ≢ path
    differs m e same = let clash = sym e ∙ (text_eq_iff m.path path).1 same in cc

module _ (hash : Text → Text) (path : Text) where
  -- The definitions of a name in a file, in their order.
  abbrev pub defined_in : Text → List Expr → List SymbolMetadata
  defined_in name [] = []
  defined_in name (Expr.define n _ body _ ∷ es) =
      if text_eq name n then metadata_of hash path body ∷ defined_in name es else defined_in name es
  defined_in name (_ ∷ es) = defined_in name es

  abbrev pub definitions : List Expr → ℕ
  definitions [] = 0
  definitions (Expr.define _ _ _ _ ∷ es) = 1 + definitions es
  definitions (_ ∷ es) = definitions es

  from-functions :
      (es : List Expr) (count : ℕ) (index : CodebaseIndex) (name : Text)
      → (index_from hash path es count index).1.functions name
        ≡ index.functions name ++ defined_in name es
  unfolding index_from push_entry insert_shape
  from-functions [] count index name = sym (append-nil (index.functions name))
  from-functions (Expr.define n ps body ex ∷ es) count index name =
      from-functions es (count + 1) (push_entry n (metadata_of hash path body) index) name
      ∙ pushed (text_eq name n) (index.functions name) (metadata_of hash path body)
          (defined_in name es)
  from-functions (Expr.shape n fields _ ∷ es) count index name = from-functions es count _ name
  from-functions (_ ∷ es) count index name = from-functions es count index name

  from-count :
      (es : List Expr) (count : ℕ) (index : CodebaseIndex)
      → (index_from hash path es count index).0 ≡ count + definitions es
  unfolding index_from
  from-count [] count index = omega arith
  from-count (Expr.define n ps body ex ∷ es) count index = from-count es (count + 1) _ ∙ omega arith
  from-count (Expr.shape n fields _ ∷ es) count index = from-count es count _
  from-count (_ ∷ es) count index = from-count es count index

  pub functions-index_exprs :
      (exprs : List Expr) (index : CodebaseIndex) (name : Text)
      → (index_exprs hash path exprs index).1.functions name
        ≡ retain_others path (index.functions name) ++ defined_in name exprs
  unfolding index_exprs purge_file
  functions-index_exprs exprs index name = from-functions exprs 0 (purge_file path index) name

  -- Indexing the expressions of a file counts its definitions, and leaves under every name first the
  -- entries that were there from other files, all of them, unchanged and in their order, and none from
  -- this file, then what this file defines now, in its order.
  pub index_exprs-replaces :
      (exprs : List Expr) (index : CodebaseIndex)
      → ((index_exprs hash path exprs index).0 ≡ definitions exprs)
        × ((name : Text)
            → (others : List SymbolMetadata) × ((index_exprs hash path exprs index).1.functions name
                ≡ others ++ defined_in name exprs)
              × OtherFiles path (index.functions name) others)
  unfolding index_exprs purge_file
  index_exprs-replaces exprs index = (
    from-count exprs 0 (purge_file path index) ∙ omega arith,
    λ name. (
      retain_others path (index.functions name),
      functions-index_exprs exprs index name,
      retain_others-OtherFiles path (index.functions name),
    ),
  )
