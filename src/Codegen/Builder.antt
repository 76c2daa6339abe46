-- ===== src/Codegen/Builder.antt =====
-- src/compiler/codegen/mod.rs: what the code generator asks of LLVM, and its helpers `get_llvm_type`,
-- `as_int`, `gen_string_constant` and `emit_auto_drop`. LLVM is a parameter: its module with the builder's
-- position is an element of `G`, a value, function or block one of `V`. The name that a value is given
-- and the type of a function are left out.
use llmlang.Prelude.{
  ℕ, Bool, true, false, Text, codes, text_eq, List, [], ◌∷◌, ◌++◌, Option, none, some, length,
  lookup, if◌then◌else◌,
}
use llmlang.Prelude.Int.{ℤ, pos}
use llmlang.Token.{Float}
use llmlang.Error.{Result, ok, err}

pub data LlvmType : Type 0 where
  i64 f64 : LlvmType

-- A method of the builder: by its name, or with the type that it takes.
pub data Instruction : Type 0 where
  plain : Text → Instruction
  load gep : LlvmType → Instruction

pub record Llvm (G V : Type 0) : Type 0 where
  pub is_int_value : V → Bool
  pub is_float_value : V → Bool
  pub is_pointer_value : V → Bool
  pub const_int : ℤ → V
  pub const_float : Float → V
  pub build : Instruction → List V → G → V × G
  pub call_external : Text → List V → G → V × G
  pub build_call : V → List V → G → V × G
  pub functions : G → List (Text × ℕ)
  pub function_value : Text → V
  pub add_function : Text → ℕ → G → V × G
  pub append_basic_block : Text → G → V × G
  pub append_entry : V → G → V × G
  pub get_insert_block : G → V
  pub position_at_end : V → G → G
  pub get_nth_param : V → ℕ → V
  pub get_global : Text → G → Option V
  pub add_string_global : Text → Text → G → V × G

-- A step of the emission, which may panic.
abbrev pub Emit : Type 0 → Type 0 → Type 0
Emit G A = G → Result Text (A × G)

infixl 5 ◌>>=◌
abbrev pub ◌>>=◌ : {G A B : Type 0} → Emit G A → (A → Emit G B) → Emit G B
(m >>= f) g = elim (m g) [ err e ↦ err e | ok (a, g') ↦ f a g' ]

infixl 5 ◌>>◌
abbrev pub ◌>>◌ : {G A B : Type 0} → Emit G A → Emit G B → Emit G B
m >> n = m >>= λ _. n

abbrev pub pure : {G A : Type 0} → A → Emit G A
pure a g = ok (a, g)

abbrev pub panics : {G A : Type 0} → Text → Emit G A
panics e g = err e

abbrev pub expects : {G A : Type 0} → Text → Option A → Emit G A
expects e none g = err e
expects e (some a) g = ok (a, g)

unfoldable pub get_llvm_type : Text → LlvmType
unfolding text_eq
get_llvm_type name = if text_eq name (codes "f64") then LlvmType.f64 else LlvmType.i64

module _ {G V : Type 0} (llvm : Llvm G V) where
  abbrev pub const : ℕ → V
  const n = llvm.const_int (pos n)

  abbrev pub build : Text → List V → Emit G V
  build name args g = ok (llvm.build (Instruction.plain (codes "build_" ++ name)) args g)

  abbrev pub build_load : LlvmType → V → Emit G V
  build_load type ptr g = ok (llvm.build (Instruction.load type) (ptr ∷ []) g)

  abbrev pub build_gep : LlvmType → V → V → Emit G V
  build_gep type ptr index g = ok (llvm.build (Instruction.gep type) (ptr ∷ index ∷ []) g)

  -- `set_alignment(8)` of a load or a store.
  abbrev pub align : V → Emit G V
  align inst g = ok (llvm.build (Instruction.plain (codes "set_alignment")) (inst ∷ []) g)

  -- `get_or_add_external_fn`, `build_call` and `get_call_res`
  abbrev pub call : Text → List V → Emit G V
  call name args g = ok (llvm.call_external name args g)

  abbrev pub call_value : V → List V → Emit G V
  call_value f args g = ok (llvm.build_call f args g)

  abbrev pub append_basic_block : Text → Emit G V
  append_basic_block name g = ok (llvm.append_basic_block name g)

  abbrev pub position_at_end : V → Emit G (Unit {0})
  position_at_end block g = ok (tt, llvm.position_at_end block g)

  abbrev pub insert_block : Emit G V
  insert_block g = ok (llvm.get_insert_block g, g)

  unfoldable pub as_int : V → Emit G V
  as_int val =
      if llvm.is_int_value val
      then pure val
      else if llvm.is_pointer_value val
      then build (codes "ptr_to_int") (val ∷ [])
      else if llvm.is_float_value val
      then build (codes "float_to_signed_int") (val ∷ [])
      else panics (codes "E996: Expected integer-convertible value")

  -- `global_name` is the name with the hash of the text.
  unfoldable pub string_global : Text → Text → Emit G V
  string_global global_name s g = elim (llvm.get_global global_name g) [
    | some global ↦ ok (global, g)
    | none ↦ ok (llvm.add_string_global global_name s g)
  ]

  module _ (hash : Text → Text) where
    unfoldable pub gen_string_constant : Text → Emit G V
    unfolding string_global
    gen_string_constant s = do
      global ← string_global (codes "str_const_" ++ hash s) s
      str_ptr ← build (codes "struct_gep") (global ∷ const 1 ∷ [])
      build (codes "ptr_to_int") (str_ptr ∷ [])

  unfoldable pub drop_shaped : List (Text × List Text) → V → Option Text → Emit G V
  unfolding lookup
  drop_shaped shapes val none = call (codes "llm_drop") (val ∷ [])
  drop_shaped shapes val (some s) = do
    fields ← expects (codes "E006") (lookup s shapes)
    call (codes "llm_drop_soa") (val ∷ const (length fields) ∷ [])

  unfoldable pub emit_auto_drop :
      List (Text × List Text) → V → Option Text → Bool → Emit G (Unit {0})
  unfolding drop_shaped
  emit_auto_drop shapes val shape true = do drop_shaped shapes val shape; pure tt
  emit_auto_drop shapes val shape false = pure tt
