-- ===== src/Codegen/Columns.antt =====
-- src/compiler/codegen/expr.rs `gen_expr`: the code for the columns of a shape's instance, of `new`, `get`,
-- `set`, `map` and `filter`. The order in which `shapes.iter()` lists the shapes is that of the list.
use llmlang.Prelude.{
  ℕ, suc, ◌*◌, Text, codes, text_eq, List, [], ◌∷◌, Option, none, some, length, lookup,
  if◌then◌else◌,
}
use llmlang.Error.{err}
use llmlang.Codegen.Names.{has_function}
use llmlang.Codegen.Builder.{
  Llvm, LlvmType, i64, Emit, ◌>>=◌, ◌>>◌, pure, expects, get_llvm_type, const, build, build_load,
  build_gep, align, call, call_value, as_int,
}

abbrev onto_position : Text → Option (ℕ × Text) → Option (ℕ × Text)
onto_position f none = none
onto_position f (some (i, t)) = some (suc i, t)

-- The number of a column, which is its place from one on, with the field.
unfoldable pub column_of : Text → List Text → Option (ℕ × Text)
unfolding text_eq
column_of field [] = none
column_of field (f ∷ fs) =
    if text_eq f field then some (1, f) else onto_position f (column_of field fs)

unfoldable pub first_column : Text → List (Text × List Text) → Option (ℕ × Text)
unfolding column_of
first_column field [] = none
first_column field ((_, fields) ∷ shapes) = elim (column_of field fields) [
  | some found ↦ some found
  | none ↦ first_column field shapes
]

unfoldable pub find_column : List (Text × List Text) → Option Text → Text → Option (ℕ × Text)
unfolding column_of first_column lookup
find_column shapes none field = first_column field shapes
find_column shapes (some shape_name) field = elim (lookup shape_name shapes) [
  | none ↦ none
  | some fields ↦ column_of field fields
]

module _ {G V : Type 0} (llvm : Llvm G V) where
  unfoldable pub alloc_columns : V → List Text → Emit G (List V)
  alloc_columns count [] = pure []
  alloc_columns count (_ ∷ fields) = do
    size_bytes ← build llvm (codes "int_mul") (count ∷ const llvm 8 ∷ [])
    ptr_val ← call llvm (codes "llm_alloc") (size_bytes ∷ [])
    ptr ← build llvm (codes "ptr_to_int") (ptr_val ∷ [])
    ptrs ← alloc_columns count fields
    pure (ptr ∷ ptrs)

  unfoldable pub store_members : V → ℕ → List V → Emit G (Unit {0})
  store_members struct_ptr i [] = pure tt
  store_members struct_ptr i (val ∷ vals) = do
    member_ptr ← build_gep llvm i64 struct_ptr (const llvm i)
    build llvm (codes "store") (member_ptr ∷ val ∷ [])
    store_members struct_ptr (suc i) vals

  -- A new instance with this number of rows: its pointer, and the pointer as an integer.
  unfoldable pub alloc_instance : V → List Text → Emit G (V × V)
  unfolding alloc_columns store_members
  alloc_instance count fields = do
    columns ← alloc_columns count fields
    struct_ptr_raw ← call llvm (codes "llm_alloc") (const llvm (length (count ∷ columns) * 8) ∷ [])
    struct_ptr_int ← build llvm (codes "ptr_to_int") (struct_ptr_raw ∷ [])
    store_members struct_ptr_raw 0 (count ∷ columns)
    pure (struct_ptr_raw, struct_ptr_int)

  unfoldable pub emit_new : List (Text × List Text) → Text → V → Emit G V
  unfolding as_int alloc_instance lookup
  emit_new shapes shape_name count_val = do
    count ← as_int llvm count_val
    fields ← expects (codes "E006") (lookup shape_name shapes)
    (_, struct_ptr_int) ← alloc_instance count fields
    pure struct_ptr_int

  unfoldable pub instance_ptr : V → Emit G V
  unfolding as_int
  instance_ptr val = do int ← as_int llvm val; build llvm (codes "int_to_ptr") (int ∷ [])

  -- The address of a column, as an integer.
  unfoldable pub column_int : V → ℕ → Emit G V
  unfolding as_int
  column_int struct_ptr index = do
    col_ptr_ptr ← build_gep llvm i64 struct_ptr (const llvm index)
    col_ptr_int_val ← build_load llvm i64 col_ptr_ptr
    as_int llvm col_ptr_int_val

  unfoldable pub column_ptr : V → ℕ → Emit G V
  unfolding column_int
  column_ptr struct_ptr index = do
    col_ptr_int ← column_int struct_ptr index
    build llvm (codes "int_to_ptr") (col_ptr_int ∷ [])

  unfoldable pub load_element : LlvmType → V → V → Emit G V
  load_element type col_ptr index = do
    element_ptr ← build_gep llvm type col_ptr index
    loaded ← build_load llvm type element_ptr
    align llvm loaded
    pure loaded

  unfoldable pub store_element : LlvmType → V → V → V → Emit G (Unit {0})
  store_element type col_ptr index val = do
    element_ptr ← build_gep llvm type col_ptr index
    inst ← build llvm (codes "store") (element_ptr ∷ val ∷ [])
    align llvm inst
    pure tt

  unfoldable pub emit_get : List (Text × List Text) → Option Text → Text → V → V → Emit G V
  unfolding as_int find_column get_llvm_type column_ptr load_element
  emit_get shapes inferred field_name struct_ptr index_val = do
    index ← as_int llvm index_val
    (field_idx, field_type) ← expects (codes "E007") (find_column shapes inferred field_name)
    col_ptr ← column_ptr struct_ptr field_idx
    load_element (get_llvm_type field_type) col_ptr index

  -- The index is already an integer here.
  unfoldable pub emit_set :
      List (Text × List Text) → Option Text → Text → V → V → V → Emit G (Unit {0})
  unfolding find_column get_llvm_type column_ptr store_element
  emit_set shapes inferred field_name struct_ptr index value = do
    (field_idx, field_type) ← expects (codes "E007") (find_column shapes inferred field_name)
    col_ptr ← column_ptr struct_ptr field_idx
    store_element (get_llvm_type field_type) col_ptr index value

  -- `module.get_function(name).expect("E010")`, and its call.
  unfoldable pub call_known : (G → Text) → List V → Emit G V
  unfolding has_function
  call_known resolved args g =
      if has_function (resolved g) (llvm.functions g)
      then call_value llvm (llvm.function_value (resolved g)) args g
      else err (codes "E010")

  unfoldable pub counter : Emit G V
  counter = do
    i_ptr ← build llvm (codes "alloca") []
    build llvm (codes "store") (i_ptr ∷ const llvm 0 ∷ [])
    pure i_ptr

  unfoldable pub load_int : V → Emit G V
  unfolding as_int
  load_int ptr = do val ← build_load llvm i64 ptr; as_int llvm val

  -- `*ptr = val + 1`
  unfoldable pub increment : V → V → Emit G (Unit {0})
  increment ptr val = do
    next ← build llvm (codes "int_add") (val ∷ const llvm 1 ∷ [])
    build llvm (codes "store") (ptr ∷ next ∷ [])
    pure tt

  abbrev pub branch : V → Emit G V
  branch block = build llvm (codes "unconditional_branch") (block ∷ [])

  abbrev pub branch_if : V → V → V → Emit G V
  branch_if cond then_bb else_bb =
      build llvm (codes "conditional_branch") (cond ∷ then_bb ∷ else_bb ∷ [])
