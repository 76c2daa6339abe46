-- ===== src/Codegen/Rows.antt =====
-- src/compiler/codegen/expr.rs `gen_expr`: the loops over the rows of an instance, of `map` and `filter`.
use llmlang.Prelude.{
  ℕ, suc, ltb, Text, codes, List, [], ◌∷◌, Option, none, some, length, lookup, ◌==◌, if◌then◌else◌,
}
use llmlang.Codegen.Builder.{
  Llvm, i64, Emit, ◌>>=◌, ◌>>◌, pure, expects, get_llvm_type, const, build, call,
  append_basic_block, position_at_end, as_int, gen_string_constant,
}
use llmlang.Codegen.Columns.{
  column_of, alloc_instance, instance_ptr, column_int, column_ptr, load_element, store_element,
  call_known, counter, load_int, increment, branch, branch_if,
}

-- The function that is applied to each row: where it is named, its name after resolution and its kernel.
pub record Mapped (G : Type 0) : Type 0 where
  pub resolved : Option (G → Text)
  pub kernel : Option Text

unfoldable pub column_number : Text → List Text → ℕ
unfolding column_of
column_number field fields = elim (column_of field fields) [ none ↦ 0 | some (i, _) ↦ i ]

module _ {G V : Type 0} (llvm : Llvm G V) (hash : Text → Text) where
  -- The head of a loop: with `i` below `count` into the block `body_name`, else to `after`.
  unfoldable pub loop_head : V → V → V → V → Emit G V
  unfolding load_int
  loop_head i_ptr count body after = do
    i ← load_int llvm i_ptr
    cond ← build llvm (codes "int_compare SLT") (i ∷ count ∷ [])
    branch_if llvm cond body after
    pure i

  unfoldable pub map_row : Option (G → Text) → V → Emit G V
  unfolding call_known
  map_row none old_val = pure old_val
  map_row (some resolved) old_val = call_known llvm resolved (old_val ∷ [])

  -- The kernel first, and the loop on the processor where it fails or there is none.
  unfoldable pub try_kernel : Option Text → V → V → V → V → V → Emit G (Unit {0})
  unfolding gen_string_constant as_int
  try_kernel none col_int new_col_int count cpu_bb after_bb = do branch llvm cpu_bb; pure tt
  try_kernel (some kernel_src) col_int new_col_int count cpu_bb after_bb = do
    kernel_val ← gen_string_constant llvm hash kernel_src
    res ← call llvm (codes "llm_opencl_map") (col_int ∷ new_col_int ∷ count ∷ kernel_val ∷ [])
    res_int ← as_int llvm res
    is_success ← build llvm (codes "int_compare EQ") (res_int ∷ const llvm 1 ∷ [])
    branch_if llvm is_success after_bb cpu_bb
    pure tt

  unfoldable pub cpu_map : Option (G → Text) → V → V → V → V → V → Emit G (Unit {0})
  unfolding counter loop_head load_element map_row store_element increment
  cpu_map resolved col_ptr new_col_ptr count cpu_bb after_bb = do
    position_at_end llvm cpu_bb
    loop_bb ← append_basic_block llvm (codes "map_loop")
    body_bb ← append_basic_block llvm (codes "map_body")
    end_bb ← append_basic_block llvm (codes "cpu_map_end")
    i_ptr ← counter llvm
    branch llvm loop_bb
    position_at_end llvm loop_bb
    i ← loop_head i_ptr count body_bb end_bb
    position_at_end llvm body_bb
    old_val ← load_element llvm i64 col_ptr i
    res_val ← map_row resolved old_val
    store_element llvm i64 new_col_ptr i res_val
    increment llvm i_ptr i
    branch llvm loop_bb
    position_at_end llvm end_bb
    branch llvm after_bb
    pure tt

  -- The row of the columns that are not mapped, from the column with this number on.
  unfoldable pub copy_row : V → V → ℕ → V → ℕ → List Text → Emit G (Unit {0})
  unfolding column_ptr load_element store_element
  copy_row inst_ptr struct_ptr field_idx ic current_idx [] = pure tt
  copy_row inst_ptr struct_ptr field_idx ic current_idx (_ ∷ fields) =
      let rest = copy_row inst_ptr struct_ptr field_idx ic (suc current_idx) fields in
      if current_idx == field_idx then rest else (do
        src_col ← column_ptr llvm inst_ptr current_idx
        val ← load_element llvm i64 src_col ic
        dst_col ← column_ptr llvm struct_ptr current_idx
        store_element llvm i64 dst_col ic val
        rest)

  unfoldable pub copy_columns : V → V → ℕ → V → List Text → Emit G (Unit {0})
  unfolding counter loop_head copy_row increment
  copy_columns inst_ptr struct_ptr field_idx count fields = do
    loop_bb ← append_basic_block llvm (codes "copy_loop")
    body_bb ← append_basic_block llvm (codes "copy_body")
    after_bb ← append_basic_block llvm (codes "after_copy")
    i_ptr ← counter llvm
    branch llvm loop_bb
    position_at_end llvm loop_bb
    ic ← loop_head i_ptr count body_bb after_bb
    position_at_end llvm body_bb
    copy_row inst_ptr struct_ptr field_idx ic 1 fields
    increment llvm i_ptr ic
    branch llvm loop_bb
    position_at_end llvm after_bb

  unfoldable pub emit_map : List (Text × List Text) → Option Text → Text → Mapped G → V → Emit G V
  unfolding instance_ptr load_int alloc_instance column_number column_int try_kernel cpu_map
      copy_columns lookup
  emit_map shapes inferred field_name f inst_val = do
    inst_ptr ← instance_ptr llvm inst_val
    count ← load_int llvm inst_ptr
    shape_name ← expects (codes "E006") inferred
    fields ← expects (codes "E006") (lookup shape_name shapes)
    (struct_ptr, new_inst_int) ← alloc_instance llvm count fields
    let field_idx = column_number field_name fields
    col_int ← column_int llvm inst_ptr field_idx
    col_ptr ← build llvm (codes "int_to_ptr") (col_int ∷ [])
    new_col_int ← column_int llvm struct_ptr field_idx
    new_col_ptr ← build llvm (codes "int_to_ptr") (new_col_int ∷ [])
    cpu_bb ← append_basic_block llvm (codes "cpu_map")
    after_bb ← append_basic_block llvm (codes "after_map")
    try_kernel f.kernel col_int new_col_int count cpu_bb after_bb
    cpu_map f.resolved col_ptr new_col_ptr count cpu_bb after_bb
    position_at_end llvm after_bb
    if ltb 1 (length fields)
        then copy_columns inst_ptr struct_ptr field_idx count fields
        else pure tt
    pure new_inst_int

  -- The values of a row, from the column with this number on.
  unfoldable pub row_values : V → V → ℕ → List Text → Emit G (List V)
  unfolding column_ptr load_element get_llvm_type
  row_values inst_ptr i index [] = pure []
  row_values inst_ptr i index (field ∷ fields) = do
    col_ptr ← column_ptr llvm inst_ptr index
    val ← load_element llvm (get_llvm_type field) col_ptr i
    vals ← row_values inst_ptr i (suc index) fields
    pure (val ∷ vals)

  unfoldable pub row_matches : Option (G → Text) → List V → Emit G V
  unfolding call_known as_int
  row_matches none vals = pure (const llvm 1)
  row_matches (some resolved) vals = do
    res_val ← call_known llvm resolved vals
    res ← as_int llvm res_val
    build llvm (codes "int_compare NE") (res ∷ const llvm 0 ∷ [])

  -- `i_ptr`, and the number of rows that match.
  unfoldable pub count_matches : Option (G → Text) → V → V → List Text → Emit G (V × V)
  unfolding counter loop_head row_values row_matches load_int increment
  count_matches resolved inst_ptr count fields = do
    loop_bb ← append_basic_block llvm (codes "filter_count_loop")
    after_bb ← append_basic_block llvm (codes "after_filter_count")
    matching_ptr ← counter llvm
    i_ptr ← counter llvm
    branch llvm loop_bb
    position_at_end llvm loop_bb
    i ← load_int llvm i_ptr
    cond ← build llvm (codes "int_compare SLT") (i ∷ count ∷ [])
    body_bb ← append_basic_block llvm (codes "filter_count_body")
    branch_if llvm cond body_bb after_bb
    position_at_end llvm body_bb
    vals ← row_values inst_ptr i 1 fields
    matched ← row_matches resolved vals
    matching ← load_int llvm matching_ptr
    inc ← build llvm (codes "int_z_extend") (matched ∷ [])
    next ← build llvm (codes "int_add") (matching ∷ inc ∷ [])
    build llvm (codes "store") (matching_ptr ∷ next ∷ [])
    increment llvm i_ptr i
    branch llvm loop_bb
    position_at_end llvm after_bb
    final ← load_int llvm matching_ptr
    pure (i_ptr, final)

  unfoldable pub store_row : V → V → ℕ → List Text → List V → Emit G (Unit {0})
  unfolding column_ptr store_element get_llvm_type
  store_row struct_ptr dst_idx index (field ∷ fields) (val ∷ vals) = do
    dst_col ← column_ptr llvm struct_ptr index
    store_element llvm (get_llvm_type field) dst_col dst_idx val
    store_row struct_ptr dst_idx (suc index) fields vals
  store_row struct_ptr dst_idx index _ _ = pure tt

  unfoldable pub copy_matches : Option (G → Text) → V → V → V → V → List Text → Emit G (Unit {0})
  unfolding counter row_values row_matches load_int store_row increment
  copy_matches resolved inst_ptr struct_ptr i_ptr count fields = do
    loop_bb ← append_basic_block llvm (codes "filter_copy_loop")
    after_bb ← append_basic_block llvm (codes "after_filter_copy")
    dst_ptr ← counter llvm
    build llvm (codes "store") (i_ptr ∷ const llvm 0 ∷ [])
    branch llvm loop_bb
    position_at_end llvm loop_bb
    i ← load_int llvm i_ptr
    cond ← build llvm (codes "int_compare SLT") (i ∷ count ∷ [])
    body_bb ← append_basic_block llvm (codes "filter_copy_body")
    branch_if llvm cond body_bb after_bb
    position_at_end llvm body_bb
    vals ← row_values inst_ptr i 1 fields
    matched ← row_matches resolved vals
    then_bb ← append_basic_block llvm (codes "then_copy")
    end_bb ← append_basic_block llvm (codes "end_copy")
    branch_if llvm matched then_bb end_bb
    position_at_end llvm then_bb
    dst_idx ← load_int llvm dst_ptr
    store_row struct_ptr dst_idx 1 fields vals
    increment llvm dst_ptr dst_idx
    branch llvm end_bb
    position_at_end llvm end_bb
    increment llvm i_ptr i
    branch llvm loop_bb
    position_at_end llvm after_bb

  unfoldable pub emit_filter :
      List (Text × List Text) → Option Text → Option (G → Text) → V → Emit G V
  unfolding instance_ptr load_int count_matches alloc_instance copy_matches lookup
  emit_filter shapes inferred resolved inst_val = do
    inst_ptr ← instance_ptr llvm inst_val
    count ← load_int llvm inst_ptr
    shape_name ← expects (codes "E006") inferred
    fields ← expects (codes "E006") (lookup shape_name shapes)
    (i_ptr, matching) ← count_matches resolved inst_ptr count fields
    (struct_ptr, new_inst_int) ← alloc_instance llvm matching fields
    copy_matches resolved inst_ptr struct_ptr i_ptr count fields
    pure new_inst_int
