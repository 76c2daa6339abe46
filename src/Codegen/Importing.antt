-- ===== src/Codegen/Importing.antt =====
-- src/compiler/codegen/symbol.rs `emit_signature_file` and src/compiler/parser/mod.rs `load_signature`: which
-- names and numbers an importer finds. The order of the entries is left open, since the code lists the shapes and
-- the templates in the order of a hash map.
use llmlang.Prelude.{
  ℕ, ◌^◌, ◌<◌, ◌≡◌, sym, subst, ◌⊎◌, inl, inr, ◌↔◌, true, Text, List, [], ◌∷◌, ◌++◌, length, All,
  Memᴰ, Bool-cases,
}
use llmlang.Prelude.Members.{any-Mem, All-Mem, Mem-append}
use llmlang.Parser.{read_signature}
use llmlang.Parser.Signature.{Signature}
use llmlang.Codegen.Names.{
  Template, Symbols, SourceFile, prefix_of, clean_name, contains_name, exported_entries,
  is_internal, without_internal, arities, emit_signature_file,
}
use llmlang.Codegen.Cleaning.{Cleans, IsHidden, not-IsHidden}
use llmlang.Codegen.Signatures.{IsWord, AreShapes, AreFuncs, read_signature-entries}
use llmlang.Codegen.Entries.{Exported, entries-Mem, without-Mem, arities-Mem}

-- The entries can be read back, if the exported names, and the fields, are words and the numbers fit.
module _ (exports : List Text) (prefix : Text) (named : All IsWord exports) where
  word :
      (full : Text)
      → contains_name exports (clean_name prefix full) ≡ true
      → IsWord (clean_name prefix full)
  word full e = All-Mem IsWord exports _ named ((any-Mem exports (clean_name prefix full)).0 e)

  entries-AreShapes :
      (entries : List (Text × List Text))
      → All (λ (s : Text × List Text). All IsWord s.1) entries
      → AreShapes (exported_entries exports prefix entries)
  unfolding exported_entries
  entries-AreShapes [] h = tt
  entries-AreShapes ((full, fields) ∷ entries) h =
      elim (Bool-cases (contains_name exports (clean_name prefix full))) [
        | inl e ↦ rw (e, exported_entries) (word full e, h.0, entries-AreShapes entries h.1)
        | inr e ↦ rw (e, exported_entries) (entries-AreShapes entries h.1)
      ]

  entries-AreFuncs :
      (entries : List (Text × ℕ))
      → All (λ (f : Text × ℕ). f.1 < 2 ^ 64) entries
      → AreFuncs (exported_entries exports prefix entries)
  unfolding exported_entries
  entries-AreFuncs [] h = tt
  entries-AreFuncs ((full, n) ∷ entries) h =
      elim (Bool-cases (contains_name exports (clean_name prefix full))) [
        | inl e ↦ rw (e, exported_entries) (word full e, h.0, entries-AreFuncs entries h.1)
        | inr e ↦ rw (e, exported_entries) (entries-AreFuncs entries h.1)
      ]

small-without :
    (fs : List (Text × ℕ))
    → All (λ (f : Text × ℕ). f.1 < 2 ^ 64) fs
    → All (λ (f : Text × ℕ). f.1 < 2 ^ 64) (without_internal fs)
unfolding without_internal
small-without [] h = tt
small-without ((f, n) ∷ fs) h = elim (Bool-cases (is_internal f)) [
  | inl e ↦ rw (e, without_internal) (small-without fs h.1)
  | inr e ↦ rw (e, without_internal) (h.0, small-without fs h.1)
]

small-arities :
    (ts : List (Text × Template))
    → All (λ (t : Text × Template). length t.1.params < 2 ^ 64) ts
    → All (λ (f : Text × ℕ). f.1 < 2 ^ 64) (arities ts)
small-arities [] h = tt
small-arities ((f, t) ∷ ts) h = (h.0, small-arities ts h.1)

module _ (file : SourceFile) (table : Symbols) where
  abbrev Listed : {A : Type 0} → List (Text × A) → Text → A → Type 0
  Listed entries name a = Exported table.exports (prefix_of file) entries name a

  -- A function of the module that is exported and not hidden.
  abbrev pub ListedFunction : Text → ℕ → Type 0
  ListedFunction name n =
      (full : Text) × Memᴰ (full, n) table.functions
      × (IsHidden full → ⊥)
      × Cleans (prefix_of file) full name
      × Memᴰ name table.exports

  -- A template of the module that is exported.
  abbrev pub ListedTemplate : Text → ℕ → Type 0
  ListedTemplate name n =
      (full : Text) × (t : Template) × Memᴰ (full, t) table.templates
      × (length t.params ≡ n)
      × Cleans (prefix_of file) full name
      × Memᴰ name table.exports

  functions_iff :
      (name : Text) (n : ℕ)
      → Listed (without_internal table.functions) name n ↔ ListedFunction name n
  functions_iff name n = (
    λ (full, m, clean, out).
        let (at, visible) = (without-Mem table.functions full n).0 m in
        (full, at, (not-IsHidden full).0 visible, clean, out),
    λ (full, at, visible, clean, out). (
      full,
      (without-Mem table.functions full n).1 (at, (not-IsHidden full).1 visible),
      clean,
      out,
    ),
  )

  templates_iff :
      (name : Text) (n : ℕ) → Listed (arities table.templates) name n ↔ ListedTemplate name n
  templates_iff name n = (
    λ (full, m, clean, out).
        let (t, at, count) = (arities-Mem table.templates full n).0 m in
        (full, t, at, count, clean, out),
    λ (full, t, at, count, clean, out).
        (full, (arities-Mem table.templates full n).1 (t, at, count), clean, out),
  )

  -- If the exported names and the fields of shapes are not empty and have no whitespace in them, and the
  -- numbers of parameters are below 2^64, then an importer reads of a module's signature file exactly
  -- these entries, in some order: a shape with its fields for each shape of the module, a function with
  -- its number of parameters for each function that is not `main` and whose full name does not begin
  -- with `trap_`, `parallel_` or `__llm_`, and for each template, where the name without the module's
  -- prefix is exported.
  pub read_signature-emit_signature_file :
      All IsWord table.exports
      → All (λ (s : Text × List Text). All IsWord s.1) table.shapes
      → All (λ (f : Text × ℕ). f.1 < 2 ^ 64) table.functions
      → All (λ (t : Text × Template). length t.1.params < 2 ^ 64) table.templates
      → (let sig = read_signature (emit_signature_file file table) in
          ((name : Text) (fields : List Text)
            → Memᴰ (name, fields) sig.shapes
              ↔ Exported table.exports (prefix_of file) table.shapes name fields)
          × ((name : Text) (n : ℕ)
              → Memᴰ (name, n) sig.funcs ↔ (ListedFunction name n ⊎ ListedTemplate name n)))
  read_signature-emit_signature_file words fields small few = subst Reads (sym read) (
    λ name fs. entries-Mem table.exports (prefix_of file) table.shapes name fs,
    λ name n. (into name n, from name n),
  )
    where
      functions : List (Text × ℕ)
      functions = exported_entries table.exports (prefix_of file) (without_internal table.functions)

      templates : List (Text × ℕ)
      templates = exported_entries table.exports (prefix_of file) (arities table.templates)

      Reads : Signature → Type 0
      Reads sig =
          ((name : Text) (fs : List Text)
            → Memᴰ (name, fs) sig.shapes
              ↔ Exported table.exports (prefix_of file) table.shapes name fs)
          × ((name : Text) (n : ℕ)
              → Memᴰ (name, n) sig.funcs ↔ (ListedFunction name n ⊎ ListedTemplate name n))

      read : read_signature (emit_signature_file file table) ≡ record {
        funcs = functions ++ templates;
        shapes = exported_entries table.exports (prefix_of file) table.shapes;
      }
      read =
          read_signature-entries file table
            (entries-AreShapes table.exports (prefix_of file) words table.shapes fields)
            (entries-AreFuncs table.exports (prefix_of file) words
              (without_internal table.functions) (small-without table.functions small))
            (entries-AreFuncs table.exports (prefix_of file) words (arities table.templates)
              (small-arities table.templates few))

      into :
          (name : Text) (n : ℕ)
          → Memᴰ (name, n) (functions ++ templates)
          → ListedFunction name n ⊎ ListedTemplate name n
      into name n m = elim ((Mem-append functions templates (name, n)).0 m) [
        | inl f ↦
            inl
              ((functions_iff name n).0 ((entries-Mem table.exports (prefix_of file) _ name n).0 f))
        | inr t ↦
            inr
              ((templates_iff name n).0 ((entries-Mem table.exports (prefix_of file) _ name n).0 t))
      ]

      from :
          (name : Text) (n : ℕ)
          → ListedFunction name n ⊎ ListedTemplate name n
          → Memᴰ (name, n) (functions ++ templates)
      from name n (inl f) = (Mem-append functions templates (name, n)).1 (
          inl
            ((entries-Mem table.exports (prefix_of file) _ name n).1 ((functions_iff name n).1 f)))
      from name n (inr t) = (Mem-append functions templates (name, n)).1 (
          inr
            ((entries-Mem table.exports (prefix_of file) _ name n).1 ((templates_iff name n).1 t)))
