-- ===== src/Analysis/Mentions.antt =====
-- src/compiler/analysis/mod.rs: which names an expression mentions, and what it is to collect them.
use llmlang.Prelude.{ap}
use llmlang.Prelude.{subst}
use llmlang.Prelude.{
  ◌≡◌, refl, sym, ◌∙◌, ◌⊎◌, inl, inr, ◌↔◌, Text, List, [], ◌∷◌, ◌++◌, Option, none, some, Memᴰ,
}
use mathlib.Core.Option.{some-injective}
use llmlang.Ast.{Expr, Exprs}
use llmlang.Analysis.Calls.{Collect, push, collect_calls}

-- The name that an expression itself mentions as a function or as a shape that it makes or reads.
abbrev pub name_at : Expr → Option Text
name_at (Expr.identifier name) = some name
name_at (Expr.expand name) = some name
name_at (Expr.new shape _) = some shape
name_at (Expr.unpack _ shape) = some shape
name_at _ = none

abbrev pub listed : Exprs → List Expr
listed Exprs.nil = []
listed (Exprs.cons e es) = e ∷ listed es

-- The direct parts of an expression, callees and arguments included. A concatenation has none here.
abbrev pub parts : Expr → List Expr
parts (Expr.binary_op _ l r) = l ∷ r ∷ []
parts (Expr.apply f args) = f ∷ listed args
parts (Expr.move e) = e ∷ []
parts (Expr.borrow e) = e ∷ []
parts (Expr.mut_borrow e) = e ∷ []
parts (Expr.define _ _ body _) = body ∷ []
parts (Expr.new _ count) = count ∷ []
parts (Expr.get i _ index) = i ∷ index ∷ []
parts (Expr.set i _ index v) = i ∷ index ∷ v ∷ []
parts (Expr.if_else c t e) = c ∷ t ∷ e ∷ []
parts (Expr.let_in _ v body) = v ∷ body ∷ []
parts (Expr.len e) = e ∷ []
parts (Expr.sub s from n) = s ∷ from ∷ n ∷ []
parts (Expr.loc l r) = l ∷ r ∷ []
parts (Expr.reg l r) = l ∷ r ∷ []
parts (Expr.read e) = e ∷ []
parts (Expr.write h s) = h ∷ s ∷ []
parts (Expr.str e) = e ∷ []
parts (Expr.split s at n) = s ∷ at ∷ n ∷ []
parts (Expr.time_get t i) = t ∷ i ∷ []
parts (Expr.time_set y m d h mn s) = y ∷ m ∷ d ∷ h ∷ mn ∷ s ∷ []
parts (Expr.env e) = e ∷ []
parts (Expr.seq l r) = l ∷ r ∷ []
parts (Expr.pack e) = e ∷ []
parts (Expr.unpack e _) = e ∷ []
parts (Expr.metadata tag v t) = tag ∷ v ∷ t ∷ []
parts (Expr.otel_emit t a₁ a₂ a₃) = t ∷ a₁ ∷ a₂ ∷ a₃ ∷ []
parts (Expr.map e _ f) = e ∷ f ∷ []
parts (Expr.filter e f) = e ∷ f ∷ []
parts (Expr.money_op _ l r) = l ∷ r ∷ []
parts (Expr.money_str e) = e ∷ []
parts (Expr.time_op _ l r) = l ∷ r ∷ []
parts (Expr.panic e) = e ∷ []
parts (Expr.trap t f) = t ∷ f ∷ []
parts (Expr.http_client m u b) = m ∷ u ∷ b ∷ []
parts (Expr.http_server op arg) = op ∷ arg ∷ []
parts (Expr.http_header req name) = req ∷ name ∷ []
parts (Expr.file_open path mode) = path ∷ mode ∷ []
parts _ = []

-- The name is mentioned at some place of the expression that no concatenation encloses.
pub data Mentions (c : Text) : Expr → Type 0 where
  here : {e : Expr} → name_at e ≡ some c → Mentions c e
  inside : {d e : Expr} → Memᴰ d (parts e) → Mentions c d → Mentions c e

module _ (c : Text) where
  -- The call adds `c` exactly if `P` holds.
  pub record Adds (P : Type 0) (p : Collect) : Type 0 where
    pub at : (xs : List Text) → Memᴰ c (p xs) ↔ (Memᴰ c xs ⊎ P)

  abbrev pub Among : List Expr → Type 0
  Among [] = ⊥
  Among (e ∷ es) = Mentions c e ⊎ Among es

  Among-Mem : (es : List Expr) → Among es → (d : Expr) × Memᴰ d es × Mentions c d
  Among-Mem [] h = elim h [ ]
  Among-Mem (e ∷ es) (inl h) = (e, Memᴰ.head refl, h)
  Among-Mem (e ∷ es) (inr h) = let (d, at, found) = Among-Mem es h in (d, Memᴰ.tail at, found)

  Mem-Among : (es : List Expr) (d : Expr) → Memᴰ d es → Mentions c d → Among es
  Mem-Among [] d at h = elim at [ ]
  Mem-Among (e ∷ es) d (Memᴰ.head same) h = inl (subst (Mentions c) same h)
  Mem-Among (e ∷ es) d (Memᴰ.tail at) h = inr (Mem-Among es d at h)

  Adds-iff : (P Q : Type 0) (p : Collect) → (P → Q) → (Q → P) → Adds P p → Adds Q p
  Adds-iff P Q p there back h = record { at = λ xs. (into xs, from xs) }
    where
      into : (xs : List Text) → Memᴰ c (p xs) → Memᴰ c xs ⊎ Q
      into xs m = elim ((h.at xs).0 m) [ inl before ↦ inl before | inr new ↦ inr (there new) ]

      from : (xs : List Text) → Memᴰ c xs ⊎ Q → Memᴰ c (p xs)
      from xs (inl before) = (h.at xs).1 (inl before)
      from xs (inr new) = (h.at xs).1 (inr (back new))

  pub Adds-then :
      (P Q : Type 0) (p q : Collect) → Adds P p → Adds Q q → Adds (P ⊎ Q) (λ xs. q (p xs))
  Adds-then P Q p q hp hq = record { at = λ xs. (into xs, from xs) }
    where
      into : (xs : List Text) → Memᴰ c (q (p xs)) → Memᴰ c xs ⊎ (P ⊎ Q)
      into xs m = elim ((hq.at (p xs)).0 m) [
        | inl before ↦ elim ((hp.at xs).0 before) [
          | inl earlier ↦ inl earlier
          | inr new ↦ inr (inl new)
        ]
        | inr new ↦ inr (inr new)
      ]

      from : (xs : List Text) → Memᴰ c xs ⊎ (P ⊎ Q) → Memᴰ c (q (p xs))
      from xs (inl before) = (hq.at (p xs)).1 (inl ((hp.at xs).1 (inl before)))
      from xs (inr (inl new)) = (hq.at (p xs)).1 (inl ((hp.at xs).1 (inr new)))
      from xs (inr (inr new)) = (hq.at (p xs)).1 (inr new)

  pub Adds-nothing : Adds ⊥ (λ xs. xs)
  Adds-nothing = record {
    at = λ xs. (λ m. inl m, λ m. elim m [ inl before ↦ before | inr new ↦ absurd new ]);
  }

  pub Adds-push : (n : Text) → Adds (n ≡ c) (push n)
  unfolding push
  Adds-push n = record { at = λ xs. (into xs, from xs) }
    where
      into : (xs : List Text) → Memᴰ c (xs ++ (n ∷ [])) → Memᴰ c xs ⊎ (n ≡ c)
      into [] (Memᴰ.head same) = inr (sym same)
      into [] (Memᴰ.tail m) = elim m [ ]
      into (x ∷ xs) (Memᴰ.head same) = inl (Memᴰ.head same)
      into (x ∷ xs) (Memᴰ.tail m) = elim (into xs m) [
        | inl before ↦ inl (Memᴰ.tail before)
        | inr new ↦ inr new
      ]

      from : (xs : List Text) → Memᴰ c xs ⊎ (n ≡ c) → Memᴰ c (xs ++ (n ∷ []))
      from [] (inl before) = elim before [ ]
      from [] (inr new) = Memᴰ.head (sym new)
      from (x ∷ xs) (inl (Memᴰ.head same)) = Memᴰ.head same
      from (x ∷ xs) (inl (Memᴰ.tail m)) = Memᴰ.tail (from xs (inl m))
      from (x ∷ xs) (inr new) = Memᴰ.tail (from xs (inr new))

  unfoldable pub collect_all : List Expr → Collect
  unfolding collect_calls
  collect_all [] = λ calls. calls
  collect_all (e ∷ es) = λ calls. collect_all es (collect_calls e calls)

  -- Each of the expressions adds `c` exactly if it mentions it.
  abbrev pub AllAdd : List Expr → Type 0
  AllAdd [] = Unit
  AllAdd (e ∷ es) = Adds (Mentions c e) (collect_calls e) × AllAdd es

  Adds-all : (es : List Expr) → AllAdd es → Adds (Among es) (collect_all es)
  unfolding collect_all
  Adds-all [] h = Adds-nothing
  Adds-all (e ∷ es) (now, later) = Adds-then _ _ _ _ now (Adds-all es later)

  -- An expression that names nothing mentions what its parts mention.
  pub Adds-parts :
      (e : Expr) (p : Collect) → name_at e ≡ none → Adds (Among (parts e)) p → Adds (Mentions c e) p
  Adds-parts e p unnamed h = Adds-iff (Among (parts e)) (Mentions c e) p there back h
    where
      there : Among (parts e) → Mentions c e
      there a = let (d, at, found) = Among-Mem (parts e) a in Mentions.inside at found

      back : Mentions c e → Among (parts e)
      back (Mentions.here named) = let clash = sym unnamed ∙ named in cc
      back (Mentions.inside {d = d} at found) = Mem-Among (parts e) d at found

  -- A name is pushed in front of what the parts add.
  pub Adds-named :
      (e : Expr) (n : Text)
      → name_at e ≡ some n
      → AllAdd (parts e)
      → Adds (Mentions c e) (λ xs. collect_all (parts e) (push n xs))
  Adds-named e n named h =
      Adds-iff ((n ≡ c) ⊎ Among (parts e)) (Mentions c e) _ there back
        (Adds-then _ _ (push n) (collect_all (parts e)) (Adds-push n) (Adds-all (parts e) h))
    where
      there : (n ≡ c) ⊎ Among (parts e) → Mentions c e
      there (inl same) = Mentions.here (named ∙ ap some same)
      there (inr a) = let (d, at, found) = Among-Mem (parts e) a in Mentions.inside at found

      back : Mentions c e → (n ≡ c) ⊎ Among (parts e)
      back (Mentions.here found) = inl (some-injective _ _ (sym named ∙ found))
      back (Mentions.inside {d = d} at found) = inr (Mem-Among (parts e) d at found)

  pub through :
      (e : Expr) → name_at e ≡ none → AllAdd (parts e) → Adds (Mentions c e) (collect_all (parts e))
  through e unnamed h = Adds-parts e _ unnamed (Adds-all (parts e) h)
