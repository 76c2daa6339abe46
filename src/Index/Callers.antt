-- ===== src/Index/Callers.antt =====
-- src/bin/mcp_server.rs: which functions `find_callers` and `structural_search` name.
use llmlang.Prelude.{subst}
use llmlang.Prelude.{◌≢◌}
use llmlang.Prelude.{Memᴰ}
use llmlang.Prelude.{◌↔◌}
use llmlang.Prelude.{
  ◌≡◌, refl, sym, ap, ◌∙◌, ◌⊎◌, inl, inr, Bool, true, ◌&&◌, ◌||◌, Text, text_eq, text_eq_iff,
  text_eq_self, List, [], ◌∷◌, ◌++◌, any, arith, Bool-cases,
}
use llmlang.Prelude.Members.{or-true, or-either, any-Mem}
use llmlang.Ast.{Expr}
use llmlang.Analysis.{get_calls}
use llmlang.Analysis.Rename.{rename}
use llmlang.Analysis.Shared.{fingerprint-rename}
use llmlang.Index.Codebase.{SymbolMetadata, CodebaseIndex, retain_others, metadata_of, index_exprs}
use llmlang.Index.Queries.{
  Listing, filter_names, calls_symbol, callers, shares_fingerprint, same_structure,
}
use llmlang.Analysis.Mentions.{Mentions}
use llmlang.Analysis.Names.{get_calls-iff_Mentions}
use llmlang.Index.Replace.{OtherFiles, defined_in, functions-index_exprs, index_exprs-replaces}
use llmlang.Index.Listed.{
  lists, lists-sort, lists-filter_names, any-append, and-both, OtherFiles-Mem,
}

module _ (l : Listing) where
  callers-lists :
      (symbol : Text) (index : CodebaseIndex) (n : Text)
      → lists (callers l symbol index) n
        ≡ (lists (l.function_keys index) n && any (calls_symbol l symbol) (index.functions n))
  unfolding callers
  callers-lists symbol index n =
      lists-sort
        (filter_names (λ m. any (calls_symbol l symbol) (index.functions m))
          (l.function_keys index))
        n
      ∙ lists-filter_names (λ m. any (calls_symbol l symbol) (index.functions m))
          (l.function_keys index) n

  -- An entry of the name from another file calls the symbol.
  abbrev pub CalledElsewhere : Text → Text → List SymbolMetadata → Type 0
  CalledElsewhere path symbol ms =
      (m : SymbolMetadata) × Memᴰ m ms × (m.path ≢ path) × Memᴰ symbol m.calls

  -- The file defines the name with this body.
  abbrev pub HasBody : Text → Expr → List Expr → Type 0
  HasBody name body [] = ⊥
  HasBody name body (Expr.define n _ b _ ∷ es) = ((n ≡ name) × (b ≡ body)) ⊎ HasBody name body es
  HasBody name body (_ ∷ es) = HasBody name body es

  any-HasBody :
      (hash : Text → Text) (path name : Text) (body : Expr) (es : List Expr)
      (p : SymbolMetadata → Bool)
      → HasBody name body es
      → p (metadata_of hash path body) ≡ true
      → any p (defined_in hash path name es) ≡ true
  any-HasBody hash path name body [] p h k = absurd h
  any-HasBody hash path name body (Expr.define n ps b ex ∷ es) p (inl (same, bodies)) k =
      rw (same, text_eq_self name, bodies, k) refl
  any-HasBody hash path name body (Expr.define n ps b ex ∷ es) p (inr later) k =
      elim (Bool-cases (text_eq name n)) [
        | inl e ↦ rw (e, any-HasBody hash path name body es p later k) (or-true _)
        | inr e ↦ rw e (any-HasBody hash path name body es p later k)
      ]
  any-HasBody hash path name body (_ ∷ es) p h k = any-HasBody hash path name body es p h k

  any-calls :
      (symbol : Text) (ms : List SymbolMetadata)
      → (any (calls_symbol l symbol) ms ≡ true)
        ↔ ((m : SymbolMetadata) × Memᴰ m ms × Memᴰ symbol m.calls)
  any-calls symbol ms = (into ms, λ (m, at, called). from ms m at called)
    where
      into :
          (ms : List SymbolMetadata)
          → any (calls_symbol l symbol) ms ≡ true
          → (m : SymbolMetadata) × Memᴰ m ms × Memᴰ symbol m.calls
      into [] h = cc
      into (m ∷ ms) h = elim (Bool-cases (calls_symbol l symbol m)) [
        | inl e ↦ (m, Memᴰ.head refl, (any-Mem m.calls symbol).0 e)
        | inr e ↦ let (k, at, called) = into ms (sym (rw e refl) ∙ h) in (k, Memᴰ.tail at, called)
      ]

      from :
          (ms : List SymbolMetadata) (m : SymbolMetadata)
          → Memᴰ m ms
          → Memᴰ symbol m.calls
          → any (calls_symbol l symbol) ms ≡ true
      from [] m at called = elim at [ ]
      from (k ∷ ms) m (Memᴰ.head same) called =
          let here =
            (any-Mem k.calls symbol).1
              (subst (λ (x : SymbolMetadata). Memᴰ symbol x.calls) same called) in
          rw here refl
      from (k ∷ ms) m (Memᴰ.tail at) called = rw (from ms m at called) (or-true _)

  elsewhere :
      (path symbol : Text) {ms os : List SymbolMetadata}
      → OtherFiles path ms os
      → (any (calls_symbol l symbol) os ≡ true) ↔ CalledElsewhere path symbol ms
  elsewhere path symbol {ms} {os} others = (
    λ h.
        let (m, at, called) = (any-calls symbol os).0 h in
        let (there, other) = (OtherFiles-Mem path others m).0 at in (m, there, other, called),
    λ (m, there, other, called).
        (any-calls symbol os).1 (m, (OtherFiles-Mem path others m).1 (there, other), called),
  )

  defined-calls :
      (hash : Text → Text) (path symbol n : Text) (es : List Expr)
      → (any (calls_symbol l symbol) (defined_in hash path n es) ≡ true)
        ↔ ((body : Expr) × HasBody n body es × Mentions symbol body)
  unfolding metadata_of
  defined-calls hash path symbol n es =
      (into es, λ (body, has, mentioned). from es body has mentioned)
    where
      into :
          (es : List Expr)
          → any (calls_symbol l symbol) (defined_in hash path n es) ≡ true
          → (body : Expr) × HasBody n body es × Mentions symbol body
      into [] h = cc
      into (Expr.define m ps body ex ∷ es) h = elim (Bool-cases (text_eq n m)) [
        | inr e ↦ let (b, has, found) = into es (sym (rw e refl) ∙ h) in (b, inr has, found)
        | inl e ↦ elim (Bool-cases (lists (get_calls body) symbol)) [
          | inl called ↦ (
            body,
            inl (sym ((text_eq_iff n m).0 e), refl),
            (get_calls-iff_Mentions symbol body).0 ((any-Mem (get_calls body) symbol).0 called),
          )
          | inr quiet ↦
              let (b, has, found) = into es (sym (rw (e, quiet) refl) ∙ h) in (b, inr has, found)
        ]
      ]
      into (_ ∷ es) h = into es h

      from :
          (es : List Expr) (body : Expr)
          → HasBody n body es
          → Mentions symbol body
          → any (calls_symbol l symbol) (defined_in hash path n es) ≡ true
      from es body has mentioned =
          any-HasBody hash path n body es (calls_symbol l symbol) has
            ((any-Mem (get_calls body) symbol).1 ((get_calls-iff_Mentions symbol body).1 mentioned))

  -- After a file is indexed, the callers of a symbol are exactly the names among the keys of which
  -- another file has an entry with the symbol among its calls, or this file now has a definition whose
  -- body mentions the symbol outside its concatenations.
  pub callers-index_exprs :
      (hash : Text → Text) (path symbol : Text) (exprs : List Expr) (index : CodebaseIndex)
      (n : Text)
      → (let indexed = (index_exprs hash path exprs index).1 in
          (lists (callers l symbol indexed) n ≡ true) ↔ (
            (lists (l.function_keys indexed) n ≡ true)
            × (CalledElsewhere path symbol (index.functions n)
                ⊎ ((body : Expr) × HasBody n body exprs × Mentions symbol body))))
  callers-index_exprs hash path symbol exprs index n = (
    λ h.
        let both = and-both _ _ (sym (callers-lists symbol indexed n) ∙ h) in
        (
          both.0,
          elim (or-either _ _ (sym entries ∙ both.1)) [
            | inl old ↦ inl (there.0 old)
            | inr new ↦ inr (here.0 new)
          ],
        ),
    λ (listed, either).
        callers-lists symbol indexed n
        ∙ rw listed (
            entries ∙ elim either [
              | inl old ↦ rw (there.1 old) refl
              | inr new ↦ rw (here.1 new) (or-true _)
            ]),
  )
    where
      indexed : CodebaseIndex
      indexed = (index_exprs hash path exprs index).1

      replaced :
          (others : List SymbolMetadata) × (indexed.functions n
            ≡ others ++ defined_in hash path n exprs)
          × OtherFiles path (index.functions n) others
      replaced = (index_exprs-replaces hash path exprs index).1 n

      there :
          (any (calls_symbol l symbol) replaced.0 ≡ true)
          ↔ CalledElsewhere path symbol (index.functions n)
      there = elsewhere path symbol replaced.2

      here :
          (any (calls_symbol l symbol) (defined_in hash path n exprs) ≡ true)
          ↔ ((body : Expr) × HasBody n body exprs × Mentions symbol body)
      here = defined-calls hash path symbol n exprs

      entries : any (calls_symbol l symbol) (indexed.functions n) ≡ (
          any (calls_symbol l symbol) replaced.0
          || any (calls_symbol l symbol) (defined_in hash path n exprs))
      entries =
          ap (any (calls_symbol l symbol)) replaced.1
          ∙ any-append (calls_symbol l symbol) replaced.0 (defined_in hash path n exprs)

  structure-lists :
      (metas : List SymbolMetadata) (index : CodebaseIndex) (n : Text)
      → lists (same_structure l metas index) n
        ≡ (lists (l.function_keys index) n && any (shares_fingerprint l metas) (index.functions n))
  unfolding same_structure
  structure-lists metas index n =
      lists-sort
        (filter_names (λ m. any (shares_fingerprint l metas) (index.functions m))
          (l.function_keys index))
        n
      ∙ lists-filter_names (λ m. any (shares_fingerprint l metas) (index.functions m))
          (l.function_keys index) n

  any-indexed :
      (hash : Text → Text) (path name : Text) (body : Expr) (exprs : List Expr)
      (index : CodebaseIndex) (p : SymbolMetadata → Bool)
      → HasBody name body exprs
      → p (metadata_of hash path body) ≡ true
      → any p ((index_exprs hash path exprs index).1.functions name) ≡ true
  any-indexed hash path name body exprs index p h k =
      ap (any p) (functions-index_exprs hash path exprs index name)
      ∙ any-append p (retain_others path (index.functions name)) (defined_in hash path name exprs)
      ∙ ap (λ b. any p (retain_others path (index.functions name)) || b)
          (any-HasBody hash path name body exprs p h k)
      ∙ or-true (any p (retain_others path (index.functions name)))

  same-fingerprint :
      (hash f : Text → Text) (path : Text) (body : Expr)
      → text_eq
          (metadata_of hash path body).fingerprint
          (metadata_of hash path (rename f (λ s. s) body)).fingerprint
        ≡ true
  unfolding metadata_of
  same-fingerprint hash f path body =
      (text_eq_iff _ _).1 (ap hash (sym (fingerprint-rename f body)))

  -- If a file that was indexed defines a function, and a second one whose body is the first one's with
  -- its functions renamed, then the structural search for the first names the second, if it is among the
  -- keys.
  pub same_structure-rename :
      (hash f : Text → Text) (path name copy : Text) (body : Expr) (exprs : List Expr)
      (index : CodebaseIndex)
      → HasBody name body exprs
      → HasBody copy (rename f (λ s. s) body) exprs
      → (let indexed = (index_exprs hash path exprs index).1 in
          lists (l.function_keys indexed) copy ≡ true
          → lists (same_structure l (indexed.functions name) indexed) copy ≡ true)
  same_structure-rename hash f path name copy body exprs index original renamed listed =
      let indexed = (index_exprs hash path exprs index).1 in
      let copied = metadata_of hash path (rename f (λ s. s) body) in
      let shared =
        any-indexed hash path name body exprs index (λ t. text_eq t.fingerprint copied.fingerprint)
          original (same-fingerprint hash f path body) in
      let found =
        any-indexed hash path copy (rename f (λ s. s) body) exprs index
          (shares_fingerprint l (indexed.functions name)) renamed shared in
      structure-lists (indexed.functions name) indexed copy ∙ ground (arith, listed, found)
