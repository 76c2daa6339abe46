-- ===== src/Index/Listed.antt =====
-- src/bin/mcp_server.rs: the names that stand in a sorted and filtered list, and the entries of other files.
use llmlang.Prelude.{◌≢◌}
use llmlang.Prelude.{Memᴰ}
use llmlang.Prelude.{◌↔◌}
use llmlang.Prelude.{
  ◌≡◌, refl, sym, ap, ◌∙◌, inl, inr, Bool, true, false, ◌&&◌, ◌||◌, Text, text_eq, text_eq_iff,
  List, [], ◌∷◌, ◌++◌, any, arith, Bool-cases,
}
use llmlang.Index.Codebase.{SymbolMetadata}
use llmlang.Index.Queries.{insert_sorted, sort, filter_names}
use llmlang.Index.Replace.{OtherFiles}

-- The name is one of the names.
abbrev pub lists : List Text → Text → Bool
lists names n = any (λ m. text_eq m n) names

pub lists-insert_sorted :
    (t : Text) (us : List Text) (n : Text)
    → lists (insert_sorted t us) n ≡ (text_eq t n || lists us n)
unfolding insert_sorted
lists-insert_sorted t [] n = refl
lists-insert_sorted t (u ∷ us) n = ground (arith, lists-insert_sorted t us n)

pub lists-sort : (ts : List Text) (n : Text) → lists (sort ts) n ≡ lists ts n
unfolding sort
lists-sort [] n = refl
lists-sort (t ∷ ts) n =
    lists-insert_sorted t (sort ts) n ∙ ap (λ b. text_eq t n || b) (lists-sort ts n)

pub lists-filter_names :
    (p : Text → Bool) (ns : List Text) (n : Text)
    → lists (filter_names p ns) n ≡ (lists ns n && p n)
lists-filter_names p [] n = refl
lists-filter_names p (m ∷ ns) n = elim (Bool-cases (text_eq m n)) [
  | inl e ↦ ground (arith, lists-filter_names p ns n, ap p ((text_eq_iff m n).0 e))
  | inr e ↦ ground (arith, lists-filter_names p ns n)
]

pub any-append :
    {A : Type 0} (p : A → Bool) (xs ys : List A) → any p (xs ++ ys) ≡ (any p xs || any p ys)
any-append p [] ys = refl
any-append p (x ∷ xs) ys = ground (arith, any-append p xs ys)

pub and-both : (b c : Bool) → (b && c) ≡ true → (b ≡ true) × (c ≡ true)
and-both true true h = (refl, refl)
and-both true false h = cc
and-both false c h = cc

pub OtherFiles-Mem :
    (path : Text) {ms os : List SymbolMetadata}
    → OtherFiles path ms os
    → (m : SymbolMetadata) → Memᴰ m os ↔ (Memᴰ m ms × (m.path ≢ path))
OtherFiles-Mem path others m = (into others, λ (at, other). from others at other)
  where
    into :
        {ms os : List SymbolMetadata}
        → OtherFiles path ms os
        → Memᴰ m os
        → Memᴰ m ms × (m.path ≢ path)
    into OtherFiles.none at = elim at [ ]
    into (OtherFiles.kept other later) (Memᴰ.head same) =
        (Memᴰ.head same, λ e. other (ap (λ (x : SymbolMetadata). x.path) (sym same) ∙ e))
    into (OtherFiles.kept other later) (Memᴰ.tail at) =
        let (there, o) = into later at in (Memᴰ.tail there, o)
    into (OtherFiles.dropped same later) at = let (there, o) = into later at in (Memᴰ.tail there, o)

    from :
        {ms os : List SymbolMetadata}
        → OtherFiles path ms os
        → Memᴰ m ms
        → m.path ≢ path
        → Memᴰ m os
    from OtherFiles.none at other = elim at [ ]
    from (OtherFiles.kept _ later) (Memᴰ.head same) other = Memᴰ.head same
    from (OtherFiles.kept _ later) (Memᴰ.tail at) other = Memᴰ.tail (from later at other)
    from (OtherFiles.dropped e later) (Memᴰ.head same) other =
        absurd (other (ap (λ (x : SymbolMetadata). x.path) same ∙ e))
    from (OtherFiles.dropped _ later) (Memᴰ.tail at) other = from later at other
