-- ===== src/Codegen/Kernel.antt =====
-- src/compiler/codegen/expr.rs: what the text that `translate_expr` gives computes as a C expression.
use llmlang.Prelude.{inr}
use llmlang.Prelude.{inl}
use llmlang.Prelude.{Bool-cases}
use llmlang.Prelude.{true}
use llmlang.Prelude.{
  ℕ, zero, suc, ◌≡◌, refl, sym, ap, subst, ◌∙◌, Bool, false, Text, codes, text_eq, text_eq_self,
  List, [], ◌∷◌, Option, none, some, get_elem?, All, if◌then◌else◌, length, lookup,
}
use llmlang.Prelude.Int.{ℤ}
use llmlang.Token.{Token, Float}
use llmlang.Ast.{Expr}
use llmlang.Printer.{print_integer}
use llmlang.Codegen.Names.{Template, Symbols}
use llmlang.Codegen.Opencl.{
  op_str, binary_text, let_text, if_text, local_name, translate_expr, ◌>>=◌, param_names,
  kernel_text, translate_template, translate_to_opencl,
}

-- The C expressions that are written. `declare x v b` is the statement expression `({ long x = v; b; })`.
pub data CExpr : Type 0 where
  literal : ℤ → CExpr
  float_literal : Text → CExpr
  name : Text → CExpr
  binary : Token → CExpr → CExpr → CExpr
  declare : Text → CExpr → CExpr → CExpr
  choose : CExpr → CExpr → CExpr → CExpr

-- The arithmetic of both languages on values of one type, C's conversion to `long`, and what a C
-- compiler reads of a float's text: `2.0` is written as `2`.
pub record Arithmetic (V : Type 0) : Type 0 where
  pub of_int : ℤ → V
  pub of_float : Float → V
  pub operate : Token → V → V → V
  pub is_true : V → Bool
  pub to_long : V → V
  pub read_float : Text → V

-- The values of the type `long`: the integers and what is computed of them, which the conversion leaves
-- as they are.
pub record Longs {V : Type 0} (a : Arithmetic V) : Type 0 where
  pub is_long : V → Bool
  pub integers : (i : ℤ) → is_long (a.of_int i) ≡ true
  pub results :
      (op : Token) (v w : V)
      → is_long v ≡ true
      → is_long w ≡ true
      → is_long (a.operate op v w) ≡ true
  pub unchanged : (v : V) → is_long v ≡ true → a.to_long v ≡ v

abbrev or_empty : Option Text → Text
or_empty none = []
or_empty (some t) = t

abbrev pub operator_text : Token → Text
operator_text op = or_empty (op_str op)

unfoldable pub written : CExpr → Text
written (literal i) = print_integer i
written (float_literal t) = t
written (name x) = x
written (binary op l r) = binary_text (written l) (operator_text op) (written r)
written (declare x v b) = let_text x (written v) (written b)
written (choose c t f) = if_text (written c) (written t) (written f)

module _ {V : Type 0} (a : Arithmetic V) where
  -- The value of a C expression. A variable is converted to `long`, and is in scope in its own
  -- initializer, where it has no value yet; no value means that none is determined.
  unfoldable pub eval_c : CExpr → (Text → Option V) → Option V
  eval_c (literal i) env = some (a.of_int i)
  eval_c (float_literal t) env = some (a.read_float t)
  eval_c (name x) env = env x
  eval_c (binary op l r) env = do v ← eval_c l env; w ← eval_c r env; some (a.operate op v w)
  eval_c (declare x v b) env = do
    w ← eval_c v (λ y. if text_eq y x then none else env y)
    eval_c b (λ y. if text_eq y x then some (a.to_long w) else env y)
  eval_c (choose c t f) env =
      let yes_value = eval_c t env in
      let no_value = eval_c f env in
      do v ← eval_c c env; if a.is_true v then yes_value else no_value

  -- The value of an expression of the language, with the values of the variables, the top first.
  unfoldable pub eval : Expr → List V → Option V
  eval (Expr.integer i) values = some (a.of_int i)
  eval (Expr.float f) values = some (a.of_float f)
  eval (Expr.de_bruijn idx) values = get_elem? values idx
  eval (Expr.binary_op op l r) values = do
    v ← eval l values
    w ← eval r values
    some (a.operate op v w)
  eval (Expr.let_in _ val body) values = do v ← eval val values; eval body (v ∷ values)
  eval (Expr.if_else c t f) values =
      let yes_value = eval t values in
      let no_value = eval f values in
      do v ← eval c values; if a.is_true v then yes_value else no_value
  eval _ values = none

bind-eq-some :
    {A B : Type 0} (m : Option A) (f : A → Option B) {b : B}
    → (m >>= f) ≡ some b
    → (x : A) × (m ≡ some x) × (f x ≡ some b)
bind-eq-some none f h = absurd (cc)
bind-eq-some (some x) f h = (x, refl, h)

bind-same :
    {A B : Type 0} (m : Option A) (f g : A → Option B)
    → ((x : A) → m ≡ some x → f x ≡ g x)
    → (m >>= f) ≡ (m >>= g)
bind-same none f g h = refl
bind-same (some x) f g h = h x refl

some_injective : {A : Type 0} {x y : A} → ◌≡◌ {A = Option A} (some x) (some y) → x ≡ y
some_injective h = cc

abbrev pub IsUnused : Text → List Text → Type 0
IsUnused x names = All (λ n. text_eq n x ≡ false) names

-- No variable gets the name of one that is in scope.
abbrev pub IsFresh : Expr → List Text → Type 0
IsFresh (Expr.binary_op _ l r) names = IsFresh l names × IsFresh r names
IsFresh (Expr.let_in x val body) names =
    IsUnused (local_name x) names × IsFresh val names × IsFresh body (local_name x ∷ names)
IsFresh (Expr.if_else c t f) names = IsFresh c names × IsFresh t names × IsFresh f names
IsFresh _ names = Unit

-- No literal of the expression is a float.
abbrev pub IsIntegral : Expr → Type 0
IsIntegral (Expr.float _) = ⊥
IsIntegral (Expr.binary_op _ l r) = IsIntegral l × IsIntegral r
IsIntegral (Expr.let_in _ val body) = IsIntegral val × IsIntegral body
IsIntegral (Expr.if_else c t f) = IsIntegral c × IsIntegral t × IsIntegral f
IsIntegral _ = Unit

module _ {V : Type 0} (a : Arithmetic V) (longs : Longs a) where
  abbrev AreLong : List V → Type 0
  AreLong values = All (λ v. longs.is_long v ≡ true) values

  long-at :
      (values : List V) (i : ℕ) {w : V}
      → AreLong values
      → get_elem? values i ≡ some w
      → longs.is_long w ≡ true
  long-at [] i h e = absurd (cc)
  long-at (v ∷ values) zero h e = subst (λ (x : V). longs.is_long x ≡ true) (some_injective e) h.0
  long-at (v ∷ values) (suc i) h e = long-at values i h.1 e

  -- Without floats, longs compute longs.
  eval-long :
      (e : Expr) (values : List V) {w : V}
      → AreLong values
      → IsIntegral e
      → eval a e values ≡ some w
      → longs.is_long w ≡ true
  unfolding eval
  eval-long (Expr.integer i) values h int e =
      subst (λ (x : V). longs.is_long x ≡ true) (some_injective e) (longs.integers i)
  eval-long (Expr.de_bruijn i) values h int e = long-at values i h e
  eval-long (Expr.binary_op op l r) values h int e =
      let (v, hv, e₁) = bind-eq-some (eval a l values) _ e in
      let (w, hw, e₂) = bind-eq-some (eval a r values) _ e₁ in
      subst (λ (x : V). longs.is_long x ≡ true) (some_injective e₂)
        (longs.results op v w (eval-long l values h int.0 hv) (eval-long r values h int.1 hw))
  eval-long (Expr.let_in _ val body) values h int e =
      let (v, hv, e₁) = bind-eq-some (eval a val values) _ e in
      eval-long body (v ∷ values) (eval-long val values h int.0 hv, h) int.1 e₁
  eval-long (Expr.if_else c t f) values h int e =
      let (v, hv, e₁) = bind-eq-some (eval a c values) _ e in
      elim (Bool-cases (a.is_true v)) [
        | inl truth ↦ eval-long t values h int.1 (sym (rw truth refl) ∙ e₁)
        | inr lie ↦ eval-long f values h int.2 (sym (rw lie refl) ∙ e₁)
      ]
  eval-long (Expr.float f) values h int e = absurd int
  eval-long _ values h int e = cc

module _ {V : Type 0} (a : Arithmetic V) (longs : Longs a) (ft : Float → Text) where
  -- The names in scope have the values of the variables.
  abbrev pub Holds : (Text → Option V) → List Text → List V → Type 0
  Holds env [] [] = Unit
  Holds env (n ∷ names) (v ∷ values) = (env n ≡ some v) × Holds env names values
  Holds env _ _ = ⊥

  Holds-at :
      (env : Text → Option V) (names : List Text) (values : List V) (i : ℕ) {n : Text}
      → Holds env names values
      → get_elem? names i ≡ some n
      → env n ≡ get_elem? values i
  Holds-at env [] [] i h e = absurd (cc)
  Holds-at env (m ∷ names) (v ∷ values) zero h e = ap env (sym (some_injective e)) ∙ h.0
  Holds-at env (m ∷ names) (v ∷ values) (suc i) h e = Holds-at env names values i h.1 e
  Holds-at env [] (v ∷ values) i h e = absurd h
  Holds-at env (m ∷ names) [] i h e = absurd h

  -- A name that is not in use can be given any value.
  Holds-unused :
      (env : Text → Option V) (x : Text) (w : Option V) (names : List Text) (values : List V)
      → IsUnused x names
      → Holds env names values
      → Holds (λ y. if text_eq y x then w else env y) names values
  Holds-unused env x w [] [] u h = tt
  Holds-unused env x w (n ∷ names) (v ∷ values) u h =
      (rw u.0 h.0, Holds-unused env x w names values u.1 h.1)
  Holds-unused env x w [] (v ∷ values) u h = h
  Holds-unused env x w (n ∷ names) [] u h = h

  -- The text is that of a C expression which computes what the expression does.
  abbrev Computes : Expr → List Text → Text → Type 0
  Computes e names t =
      (c : CExpr) × (written c ≡ t)
      × ((env : Text → Option V) (values : List V)
          → Holds env names values
          → AreLong a longs values
          → IsIntegral e
          → IsFresh e names
          → eval_c a c env ≡ eval a e values)

  binary-Computes :
      (op : Token) (l r : Expr) (names : List Text) (lt rt ot : Text)
      → Computes l names lt
      → Computes r names rt
      → op_str op ≡ some ot
      → Computes (Expr.binary_op op l r) names (binary_text lt ot rt)
  unfolding written eval_c eval
  binary-Computes op l r names lt rt ot (cl, wl, hl) (cr, wr, hr) o = (
    binary op cl cr,
    rw (wl, wr) (ap (λ t. binary_text lt (or_empty t) rt) o),
    λ env values h long int fresh.
        rw (hl env values h long int.0 fresh.0, hr env values h long int.1 fresh.1) refl,
  )

  let-Computes :
      (x : Text) (val body : Expr) (names : List Text) (vt bt : Text)
      → Computes val names vt
      → Computes body (local_name x ∷ names) bt
      → Computes (Expr.let_in x val body) names (let_text (local_name x) vt bt)
  unfolding written eval_c eval
  let-Computes x val body names vt bt (cv, wv, hv) (cb, wb, hb) = (
    declare (local_name x) cv cb,
    rw (wv, wb) refl,
    λ env values h long int fresh.
        rw
          (hv (λ y. if text_eq y (local_name x) then none else env y) values
            (Holds-unused env (local_name x) none names values fresh.0 h) long int.0 fresh.1)
          (bind-same (eval a val values) _ _ λ w e.
            let converted = longs.unchanged w (eval-long a longs val values long int.0 e) in
            hb (λ y. if text_eq y (local_name x) then some (a.to_long w) else env y) (w ∷ values)
              (
                rw (text_eq_self (local_name x)) (ap some converted),
                Holds-unused env (local_name x) (some (a.to_long w)) names values fresh.0 h,
              )
              (eval-long a longs val values long int.0 e, long) int.1 fresh.2),
  )

  if-Computes :
      (c t f : Expr) (names : List Text) (ct tt' ft' : Text)
      → Computes c names ct
      → Computes t names tt'
      → Computes f names ft'
      → Computes (Expr.if_else c t f) names (if_text ct tt' ft')
  unfolding written eval_c eval
  if-Computes c t f names ct tt' ft' (cc', wc, hc) (c₁, w₁, h₁) (c₂, w₂, h₂) = (
    choose cc' c₁ c₂,
    rw (wc, w₁, w₂) refl,
    λ env values h long int fresh.
        rw
          (
            hc env values h long int.0 fresh.0,
            h₁ env values h long int.1 fresh.1,
            h₂ env values h long int.2 fresh.2,
          )
          refl,
  )

  translated :
      (e : Expr) (names : List Text) (t : Text)
      → translate_expr ft e names ≡ some t
      → Computes e names t
  unfolding translate_expr written eval_c eval
  translated (Expr.integer i) names t h =
      (literal i, some_injective h, λ env values k long int fresh. refl)
  translated (Expr.float f) names t h =
      (float_literal (ft f), some_injective h, λ env values k long int fresh. absurd int)
  translated (Expr.de_bruijn i) names t h =
      (name t, refl, λ env values k long int fresh. Holds-at env names values i k h)
  translated (Expr.binary_op op l r) names t h =
      let (lt, hl, h₁) = bind-eq-some (translate_expr ft l names) _ h in
      let (rt, hr, h₂) = bind-eq-some (translate_expr ft r names) _ h₁ in
      let (ot, ho, same) = bind-eq-some (op_str op) _ h₂ in
      subst (Computes (Expr.binary_op op l r) names) (some_injective same) (
        binary-Computes op l r names lt rt ot (translated l names lt hl) (translated r names rt hr)
          ho)
  translated (Expr.let_in x val body) names t h =
      let (vt, hv, h₁) = bind-eq-some (translate_expr ft val names) _ h in
      let (bt, hb, same) = bind-eq-some (translate_expr ft body (local_name x ∷ names)) _ h₁ in
      subst (Computes (Expr.let_in x val body) names) (some_injective same) (
        let-Computes x val body names vt bt (translated val names vt hv)
          (translated body (local_name x ∷ names) bt hb))
  translated (Expr.if_else c t f) names u h =
      let (ct, hc, h₁) = bind-eq-some (translate_expr ft c names) _ h in
      let (t₁, ht, h₂) = bind-eq-some (translate_expr ft t names) _ h₁ in
      let (t₂, hf, same) = bind-eq-some (translate_expr ft f names) _ h₂ in
      subst (Computes (Expr.if_else c t f) names) (some_injective same) (
        if-Computes c t f names ct t₁ t₂ (translated c names ct hc) (translated t names t₁ ht)
          (translated f names t₂ hf))
  translated e names t h = absurd (cc)

-- The variables of a kernel: its parameter has the value of the item.
abbrev pub item_env : {V : Type 0} → V → Text → Option V
item_env v y = if text_eq y (codes "param_0") then some v else none

one_name : (ft : Float → Text) (n : ℕ) → n ≡ 1 → param_names ft n ≡ codes "param_0" ∷ []
unfolding param_names
one_name ft n h = ap (param_names ft) h

pub translate_to_opencl-computes :
    {V : Type 0} (a : Arithmetic V) (longs : Longs a) (ft : Float → Text) (table : Symbols)
    (func_name kernel : Text)
    → translate_to_opencl ft table func_name ≡ some kernel
    → (t : Template) × (c : CExpr) × (lookup func_name table.templates ≡ some t)
      × (kernel ≡ kernel_text ft (written c))
      × ((v : V)
          → length t.params ≡ 1
          → longs.is_long v ≡ true
          → IsIntegral t.body
          → IsFresh t.body (codes "param_0" ∷ [])
          → eval_c a c (item_env v) ≡ eval a t.body (v ∷ []))
unfolding translate_to_opencl translate_template text_eq
translate_to_opencl-computes a longs ft table func_name kernel h =
    let (t, found, h₁) =
      bind-eq-some (lookup func_name table.templates) (translate_template ft) h in
    let (text, translated_text, same) =
      bind-eq-some (translate_expr ft t.body (param_names ft (length t.params)))
        (λ s. some (kernel_text ft s)) h₁ in
    let (c, w, computes) =
      translated a longs ft t.body (param_names ft (length t.params)) text translated_text in
    (
      t,
      c,
      found,
      sym (some_injective same) ∙ ap (kernel_text ft) (sym w),
      λ v one long int fresh.
          let names = one_name ft (length t.params) one in
          computes (item_env v) (v ∷ [])
            (subst (λ ns. Holds a longs ft (item_env v) ns (v ∷ [])) (sym names) (refl, tt))
            (long, tt) int (subst (IsFresh t.body) (sym names) fresh),
    )
