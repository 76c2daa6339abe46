-- ===== src/Codegen/Operators.antt =====
-- src/compiler/codegen/expr.rs `gen_expr`: the operators on numbers, money and times.
use llmlang.Prelude.{Text, codes, [], ◌∷◌, ◌||◌, if◌then◌else◌}
use llmlang.Token.{Token}
use llmlang.Codegen.Builder.{Llvm, Emit, ◌>>=◌, pure, panics, const, build, as_int}

module _ {G V : Type 0} (llvm : Llvm G V) where
  abbrev pub compare : Text → V → V → Emit G V
  compare name lhs rhs = do
    cmp ← build llvm name (lhs ∷ rhs ∷ [])
    build llvm (codes "int_z_extend") (cmp ∷ [])

  unfoldable pub promote : V → Emit G V
  promote val =
      if llvm.is_int_value val
      then build llvm (codes "signed_int_to_float") (val ∷ [])
      else if llvm.is_float_value val
      then pure val
      else panics (codes "expected a FloatValue")

  unfoldable pub float_op : Token → V → V → Emit G V
  float_op Token.add lhs rhs = build llvm (codes "float_add") (lhs ∷ rhs ∷ [])
  float_op Token.sub lhs rhs = build llvm (codes "float_sub") (lhs ∷ rhs ∷ [])
  float_op Token.mul lhs rhs = build llvm (codes "float_mul") (lhs ∷ rhs ∷ [])
  float_op Token.div lhs rhs = build llvm (codes "float_div") (lhs ∷ rhs ∷ [])
  float_op Token.eq lhs rhs = compare (codes "float_compare OEQ") lhs rhs
  float_op Token.lt lhs rhs = compare (codes "float_compare OLT") lhs rhs
  float_op Token.gt lhs rhs = compare (codes "float_compare OGT") lhs rhs
  float_op _ lhs rhs = panics (codes "E008")

  unfoldable pub int_op : Token → V → V → Emit G V
  int_op Token.add lhs rhs = build llvm (codes "int_add") (lhs ∷ rhs ∷ [])
  int_op Token.sub lhs rhs = build llvm (codes "int_sub") (lhs ∷ rhs ∷ [])
  int_op Token.mul lhs rhs = build llvm (codes "int_mul") (lhs ∷ rhs ∷ [])
  int_op Token.div lhs rhs = build llvm (codes "int_signed_div") (lhs ∷ rhs ∷ [])
  int_op Token.eq lhs rhs = compare (codes "int_compare EQ") lhs rhs
  int_op Token.lt lhs rhs = compare (codes "int_compare SLT") lhs rhs
  int_op Token.gt lhs rhs = compare (codes "int_compare SGT") lhs rhs
  int_op Token.bit_and lhs rhs = build llvm (codes "and") (lhs ∷ rhs ∷ [])
  int_op Token.bit_or lhs rhs = build llvm (codes "or") (lhs ∷ rhs ∷ [])
  int_op Token.bit_xor lhs rhs = build llvm (codes "xor") (lhs ∷ rhs ∷ [])
  int_op _ lhs rhs = panics (codes "E008")

  unfoldable pub emit_binary : Token → V → V → Emit G V
  unfolding promote float_op int_op as_int
  emit_binary op lhs_val rhs_val =
      if llvm.is_float_value lhs_val || llvm.is_float_value rhs_val
      then (do lhs ← promote lhs_val; rhs ← promote rhs_val; float_op op lhs rhs)
      else (do lhs ← as_int llvm lhs_val; rhs ← as_int llvm rhs_val; int_op op lhs rhs)

  unfoldable pub money_int_op : Token → V → V → Emit G V
  money_int_op Token.add lhs rhs = build llvm (codes "int_add") (lhs ∷ rhs ∷ [])
  money_int_op Token.sub lhs rhs = build llvm (codes "int_sub") (lhs ∷ rhs ∷ [])
  money_int_op Token.mul lhs rhs = do
    raw ← build llvm (codes "int_mul") (lhs ∷ rhs ∷ [])
    build llvm (codes "int_signed_div") (raw ∷ const llvm 10000 ∷ [])
  money_int_op Token.div lhs rhs = do
    scaled ← build llvm (codes "int_mul") (lhs ∷ const llvm 10000 ∷ [])
    build llvm (codes "int_signed_div") (scaled ∷ rhs ∷ [])
  money_int_op _ lhs rhs = panics (codes "E008")

  unfoldable pub emit_money : Token → V → V → Emit G V
  unfolding money_int_op as_int
  emit_money op lhs_val rhs_val = do
    lhs ← as_int llvm lhs_val
    rhs ← as_int llvm rhs_val
    money_int_op op lhs rhs

  unfoldable pub time_int_op : Token → V → V → Emit G V
  time_int_op Token.add lhs rhs = build llvm (codes "int_add") (lhs ∷ rhs ∷ [])
  time_int_op Token.sub lhs rhs = build llvm (codes "int_sub") (lhs ∷ rhs ∷ [])
  time_int_op _ lhs rhs = panics (codes "E008")

  unfoldable pub emit_time : Token → V → V → Emit G V
  unfolding time_int_op as_int
  emit_time op lhs_val rhs_val = do
    lhs ← as_int llvm lhs_val
    rhs ← as_int llvm rhs_val
    time_int_op op lhs rhs
