-- ===== src/Index/Codebase.antt =====
-- src/bin/mcp_server.rs: `CodebaseIndex`. The map `functions` is a function that gives the empty list for
-- a missing key: the code drops a key with no entries, and treats it as missing. `canonicalize` of the
-- file system and SHA-256 with its hexadecimal text are parameters; the texts of the errors are left out.
use llmlang.Prelude.{
  ℕ, ◌+◌, Bool, true, false, Text, text_eq, List, [], ◌∷◌, ◌++◌, Option, none, some, if◌then◌else◌,
  map,
}
use llmlang.Ast.{Expr}
use llmlang.Error.{Result, ok, err}
use llmlang.Analysis.{get_calls, structural_fingerprint}

pub record SymbolMetadata : Type 0 where
  pub expr : Expr
  pub path : Text
  pub line : ℕ
  pub calls : List Text
  pub fingerprint : Text

pub record ShapeMetadata : Type 0 where
  pub fields : List Text
  pub path : Text
  pub line : ℕ

pub record CodebaseIndex : Type 0 where
  pub functions : Text → List SymbolMetadata
  pub shapes : Text → Option ShapeMetadata

unfoldable pub new_index : CodebaseIndex
new_index = record { functions = λ name. []; shapes = λ name. none }

-- `metas.retain(|m| m.path != path)`
unfoldable pub retain_others : Text → List SymbolMetadata → List SymbolMetadata
unfolding text_eq
retain_others path [] = []
retain_others path (m ∷ ms) =
    if text_eq m.path path then retain_others path ms else m ∷ retain_others path ms

unfoldable pub retain_shape : Text → Option ShapeMetadata → Option ShapeMetadata
unfolding text_eq
retain_shape path none = none
retain_shape path (some s) = if text_eq s.path path then none else some s

unfoldable pub purge_file : Text → CodebaseIndex → CodebaseIndex
unfolding retain_others retain_shape
purge_file path index = record {
  functions = λ name. retain_others path (index.functions name);
  shapes = λ name. retain_shape path (index.shapes name);
}

-- `entry(name).or_default().push(meta)`
unfoldable pub push_entry : Text → SymbolMetadata → CodebaseIndex → CodebaseIndex
unfolding text_eq
push_entry name meta index = record index {
  functions = λ n. if text_eq n name then index.functions n ++ (meta ∷ []) else index.functions n;
}

unfoldable pub insert_shape : Text → ShapeMetadata → CodebaseIndex → CodebaseIndex
unfolding text_eq
insert_shape name shape index = record index {
  shapes = λ n. if text_eq n name then some shape else index.shapes n;
}

module _ (hash : Text → Text) where
  unfoldable pub metadata_of : Text → Expr → SymbolMetadata
  unfolding get_calls structural_fingerprint
  metadata_of path body = record {
    expr = body;
    path = path;
    line = 0;
    calls = get_calls body;
    fingerprint = hash (structural_fingerprint body);
  }

  -- The expressions from one on, with the count so far.
  unfoldable pub index_from : Text → List Expr → ℕ → CodebaseIndex → ℕ × CodebaseIndex
  unfolding metadata_of push_entry insert_shape
  index_from path [] count index = (count, index)
  index_from path (Expr.define name _ body _ ∷ es) count index =
      index_from path es (count + 1) (push_entry name (metadata_of path body) index)
  index_from path (Expr.shape name fields _ ∷ es) count index =
      index_from path es count
        (insert_shape name (record { fields = fields; path = path; line = 0 }) index)
  index_from path (_ ∷ es) count index = index_from path es count index

  unfoldable pub index_exprs : Text → List Expr → CodebaseIndex → ℕ × CodebaseIndex
  unfolding purge_file index_from
  index_exprs path expressions index = index_from path expressions 0 (purge_file path index)

pub data ResolveError : Type 0 where
  not_found : Text → ResolveError
  not_in : Text → Text → List Text → ResolveError
  ambiguous : Text → List Text → ResolveError

module _ (canonicalize : Text → Option Text) where
  unfoldable pub paths_match : Text → Text → Bool
  unfolding text_eq
  paths_match a b = if text_eq a b then true else elim (canonicalize a) [
    | none ↦ false
    | some ca ↦ elim (canonicalize b) [ none ↦ false | some cb ↦ text_eq ca cb ]
  ]

  unfoldable pub find_path : Text → List SymbolMetadata → Option SymbolMetadata
  unfolding paths_match
  find_path p [] = none
  find_path p (m ∷ ms) = if paths_match m.path p then some m else find_path p ms

  unfoldable pub resolve_among :
      Text → Option Text → List SymbolMetadata → Result ResolveError SymbolMetadata
  unfolding find_path
  resolve_among name path [] = err (ResolveError.not_found name)
  resolve_among name (some p) (m ∷ ms) = elim (find_path p (m ∷ ms)) [
    | some found ↦ ok found
    | none ↦ err (ResolveError.not_in name p (map (λ x. x.path) (m ∷ ms)))
  ]
  resolve_among name none (m ∷ []) = ok m
  resolve_among name none (m ∷ n ∷ ms) =
      err (ResolveError.ambiguous name (map (λ x. x.path) (m ∷ n ∷ ms)))

  unfoldable pub resolve_function :
      Text → Option Text → CodebaseIndex → Result ResolveError SymbolMetadata
  unfolding resolve_among
  resolve_function name path index = resolve_among name path (index.functions name)
