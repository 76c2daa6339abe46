-- ===== src/Index/Resolve.antt =====
-- src/bin/mcp_server.rs: a function that was just indexed is resolved by its path.
use llmlang.Prelude.{
  ◌≡◌, refl, ap, ◌∙◌, subst, true, false, Text, text_eq, text_eq_self, List, [], ◌∷◌, ◌++◌, Option,
  some, Bool-cases, inl, inr, All,
}
use llmlang.Ast.{Expr}
use llmlang.Error.{ok}
use llmlang.Index.Codebase.{
  SymbolMetadata, CodebaseIndex, retain_others, metadata_of, index_exprs, paths_match, find_path,
  resolve_among, resolve_function,
}
use llmlang.Index.Replace.{defined_in, functions-index_exprs}

module _ (canonicalize : Text → Option Text) where
  find_path-last :
      (p : Text) (others : List SymbolMetadata) (m : SymbolMetadata)
      → All (λ o. paths_match canonicalize o.path p ≡ false) others
      → m.path ≡ p
      → find_path canonicalize p (others ++ (m ∷ [])) ≡ some m
  unfolding find_path paths_match
  find_path-last p [] m h same =
      let here : text_eq m.path p ≡ true = ap (λ a. text_eq a p) same ∙ text_eq_self p in
      rw (here, paths_match) refl
  find_path-last p (o ∷ os) m h same = rw (h.0, find_path) (find_path-last p os m h.1 same)

  nowhere : {B : Type 0} (p : Text) {m : SymbolMetadata} → find_path canonicalize p [] ≡ some m → B
  unfolding find_path
  nowhere p h = cc

  among-found :
      (name p : Text) (ms : List SymbolMetadata) (m : SymbolMetadata)
      → find_path canonicalize p ms ≡ some m
      → resolve_among canonicalize name (some p) ms ≡ ok m
  unfolding resolve_among
  among-found name p [] m h = nowhere p h
  among-found name p (x ∷ xs) m h = rw (h, resolve_among) refl

defined_in-path :
    (hash : Text → Text) (path name : Text) (es : List Expr)
    → All (λ m. m.path ≡ path) (defined_in hash path name es)
unfolding metadata_of
defined_in-path hash path name [] = tt
defined_in-path hash path name (Expr.define n ps body ex ∷ es) =
    elim (Bool-cases (text_eq name n)) [
      | inl e ↦ rw e (refl, defined_in-path hash path name es)
      | inr e ↦ rw e (defined_in-path hash path name es)
    ]
defined_in-path hash path name (_ ∷ es) = defined_in-path hash path name es

-- If a file defines a function once, and no other file with a function of that name has a path that
-- matches, then after indexing the file the function is resolved by the path to this definition,
-- whatever was indexed before.
pub resolve_function-index_exprs :
    (hash : Text → Text) (canonicalize : Text → Option Text) (path name : Text) (exprs : List Expr)
    (index : CodebaseIndex) (m : SymbolMetadata)
    → defined_in hash path name exprs ≡ m ∷ []
    → All
        (λ o. paths_match canonicalize o.path path ≡ false)
        (retain_others path (index.functions name))
    → resolve_function canonicalize name (some path) (index_exprs hash path exprs index).1 ≡ ok m
unfolding resolve_function
resolve_function-index_exprs hash canonicalize path name exprs index m once others =
    let entries =
      functions-index_exprs hash path exprs index name
      ∙ ap (λ ms. retain_others path (index.functions name) ++ ms) once in
    let here = subst (All (λ o. o.path ≡ path)) once (defined_in-path hash path name exprs) in
    ap (resolve_among canonicalize name (some path)) entries
    ∙ among-found canonicalize name path _ m (
        find_path-last canonicalize path (retain_others path (index.functions name)) m others
          here.0)
