-- ===== src/Codegen/Exports.antt =====
-- src/compiler/codegen/symbol.rs: the number of parameters that an importer reads for a function that
-- `gen_function` exports.
use llmlang.Prelude.{
  ℕ, ◌≡◌, refl, sym, ap, ◌∙◌, true, false, Text, codes, text_eq, text_eq_self, List, [], ◌∷◌, ◌++◌,
  append_assoc, some, Bool-cases, inl, inr, length, All, if◌then◌else◌, strip_prefix,
  strip_prefix-append,
}
use llmlang.Ast.{Param, Expr}
use llmlang.Parser.{read_signature, find_named}
use llmlang.Codegen.Names.{
  AddFunction, SourceFile, Symbols, has_function, namespaced, is_plain, get_module_name, final_name,
  export_name, has_expand, declare_function, prefix_of, clean_name, contains_name, exported_entries,
  is_internal, without_internal, arities, emit_signature_file,
}
use llmlang.Codegen.Signatures.{AreShapes, AreFuncs, read_signature-entries}

strip-under : (m name : Text) → strip_prefix (m ++ codes "_") (m ++ (codes "_" ++ name)) ≡ some name
strip-under m name =
    ap (strip_prefix (m ++ codes "_")) (sym (append_assoc m (codes "_") name))
    ∙ strip_prefix-append (m ++ codes "_") name

clean-under : (m name : Text) → clean_name (m ++ codes "_") (m ++ (codes "_" ++ name)) ≡ name
unfolding clean_name
clean-under [] name = rw (strip-under [] name, clean_name) refl
clean-under (c ∷ m) name = rw (strip-under (c ∷ m) name, clean_name) refl

clean-plain : (name : Text) → clean_name [] name ≡ name
unfolding clean_name
clean-plain name = refl

-- The prefix of a module's exported names is taken off again.
clean-namespaced :
    (file : SourceFile) (name : Text)
    → clean_name (prefix_of file) (namespaced (get_module_name file) name) ≡ name
unfolding prefix_of
clean-namespaced file name = elim (Bool-cases (is_plain (get_module_name file))) [
  | inl e ↦ rw e (clean-plain name)
  | inr e ↦ rw e (clean-under (get_module_name file) name)
]

any-last : (names : List Text) (name : Text) → contains_name (names ++ (name ∷ [])) name ≡ true
any-last [] name = rw (text_eq_self name) refl
any-last (n ∷ names) name = elim (Bool-cases (text_eq n name)) [
  | inl e ↦ rw e refl
  | inr e ↦ rw e (any-last names name)
]

module _ (exports : List Text) (prefix name : Text) where
  -- No function that is there already is written under the name.
  abbrev pub AreOthers : List (Text × ℕ) → Type 0
  AreOthers fs = All (λ f. text_eq (clean_name prefix f.0) name ≡ false) fs

  entry-last :
      (full : Text) (arity : ℕ) (more : List (Text × ℕ))
      → contains_name exports name ≡ true
      → clean_name prefix full ≡ name
      → is_internal full ≡ false
      → find_named name
          (exported_entries exports prefix (without_internal ((full, arity) ∷ [])) ++ more)
        ≡ some arity
  unfolding find_named exported_entries without_internal
  entry-last full arity more listed clean visible =
      rw (visible, clean, listed, text_eq_self name) refl

  find-last :
      (fs : List (Text × ℕ)) (full : Text) (arity : ℕ) (more : List (Text × ℕ))
      → contains_name exports name ≡ true
      → clean_name prefix full ≡ name
      → is_internal full ≡ false
      → AreOthers fs
      → find_named name
          (exported_entries exports prefix (without_internal (fs ++ ((full, arity) ∷ []))) ++ more)
        ≡ some arity
  unfolding find_named exported_entries without_internal
  find-last [] full arity more listed clean visible others =
      entry-last full arity more listed clean visible
  find-last ((f, k) ∷ fs) full arity more listed clean visible others =
      let later = find-last fs full arity more listed clean visible others.1 in
      elim (Bool-cases (is_internal f)) [
        | inl e ↦ rw e later
        | inr e ↦ elim (Bool-cases (contains_name exports (clean_name prefix f))) [
          | inl l ↦ rw (e, l, others.0) later
          | inr l ↦ rw (e, l) later
        ]
      ]

module _ (add_function : AddFunction) (file : SourceFile) (name : Text) (params : List Param)
    (body : Expr) (sym : Symbols) where
  abbrev full_name : Text
  full_name = namespaced (get_module_name file) name

  -- A template is declared without parameters.
  abbrev pub declared_arity : ℕ
  declared_arity = if has_expand params then 0 else length params

  abbrev pub exported_symbols : Symbols
  exported_symbols = declare_function add_function file name params body true sym

  named : text_eq name (codes "main") ≡ false → final_name file name true ≡ full_name
  unfolding final_name
  named h = rw (h, final_name) refl

  declared :
      text_eq name (codes "main") ≡ false
      → has_function full_name sym.functions ≡ false
      → ((n : ℕ) → add_function full_name n sym.functions ≡ sym.functions ++ ((full_name, n) ∷ []))
      → (exported_symbols.exports ≡ sym.exports ++ (name ∷ []))
        × (exported_symbols.functions ≡ sym.functions ++ ((full_name, declared_arity) ∷ []))
  unfolding declare_function export_name
  declared other free added = elim (Bool-cases (has_expand params)) [
    | inl e ↦ rw (named other, e, added 0) (refl, refl)
    | inr e ↦ rw (named other, e, free, added (length params)) (refl, refl)
  ]

-- If a function that is not `main` is exported under a name for which the module has no function yet,
-- and for which no other function of it would be listed, if its full name is not one that the signature
-- file leaves out (a name that begins with `trap_`, `parallel_` or `__llm_`), and if everything that
-- the module then exports can be read back, an importer reads the function's number of parameters from
-- the signature file, but zero if a parameter is expanded.
pub find_named-emit_signature_file :
    (add_function : AddFunction) (file : SourceFile) (name : Text) (params : List Param)
    (body : Expr) (sym : Symbols)
    → text_eq name (codes "main") ≡ false
    → has_function (namespaced (get_module_name file) name) sym.functions ≡ false
    → ((n : ℕ)
        → add_function (namespaced (get_module_name file) name) n sym.functions
          ≡ sym.functions ++ ((namespaced (get_module_name file) name, n) ∷ []))
    → is_internal (namespaced (get_module_name file) name) ≡ false
    → AreOthers (sym.exports ++ (name ∷ [])) (prefix_of file) name sym.functions
    → (let s = declare_function add_function file name params body true sym in
        AreShapes (exported_entries s.exports (prefix_of file) s.shapes)
        × AreFuncs (exported_entries s.exports (prefix_of file) (without_internal s.functions))
        × AreFuncs (exported_entries s.exports (prefix_of file) (arities s.templates)))
    → find_named name
        (read_signature (
          emit_signature_file file
            (declare_function add_function file name params body true sym))).funcs
      ≡ some (if has_expand params then 0 else length params)
find_named-emit_signature_file add_function file name params body sym other free added visible
      others readable =
    let s = declare_function add_function file name params body true sym in
    let (exports, functions) = declared add_function file name params body sym other free added in
    let full = namespaced (get_module_name file) name in
    let more = exported_entries s.exports (prefix_of file) (arities s.templates) in
    ap (λ r. find_named name r.funcs)
      (read_signature-entries file s readable.0 readable.1 readable.2)
    ∙ ap
        (λ e.
          find_named name
            (exported_entries e (prefix_of file) (without_internal s.functions) ++ more))
        exports
    ∙ ap
        (λ fs. find_named name (
          exported_entries (sym.exports ++ (name ∷ [])) (prefix_of file) (without_internal fs)
          ++ more))
        functions
    ∙ find-last (sym.exports ++ (name ∷ [])) (prefix_of file) name sym.functions full
        (declared_arity add_function file name params body sym) more (any-last sym.exports name)
        (clean-namespaced file name) visible others
