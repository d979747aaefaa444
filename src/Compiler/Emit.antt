-- ===== src/Compiler/Emit.antt =====
-- What the walk of atomixc/src/pipe.ts does to the sections of a module: it takes them and returns them,
-- or it throws. The operators, the names and the numbers of the tree as instructions.
use atomix_js.Prelude.{
  ℕ, suc, Bool, true, false, Option, none, some, List, [], ◌∷◌, Str, str_eq, if◌then◌else◌,
}
use atomix_js.Instruction.{Opcode}
use atomix_js.Compiler.Syntax.{BinaryOperator, UnaryOperator, Node, Nodes}
use atomix_js.Compiler.Sections.{
  Operand, constant_integer, constant_short, constant_double, DataSection, add_instruction,
  replace_instruction, STableSection, register_string,
}

pub data Thrown : Type 0 where
  not_in_the_pipe type_error unsupported_operator undefined_key_type missing_meta_data : Thrown
  undefined_property unsupported_property_type unsupported_identifier unsupported_param_type :
      Thrown
  unexpected_variable_id missing_declaration_id unsupported_declaration_type : Thrown

pub record PipeContext : Type 0 where
  pub stable : STableSection
  pub data_section : DataSection

pub data Piped (A : Type 0) : Type 0 where
  done : A → PipeContext → Piped A
  thrown : Thrown → Piped A

abbrev pub Pipe : Type 0 → Type 0
Pipe A = PipeContext → Piped A

abbrev pub then_pipe : {A B : Type 0} → Piped A → (A → Pipe B) → Piped B
then_pipe (done a ctx) k = k a ctx
then_pipe (thrown e) k = thrown e

infixl 5 ◌>>=◌ ◌>>◌
abbrev pub ◌>>=◌ : {A B : Type 0} → Pipe A → (A → Pipe B) → Pipe B
◌>>=◌ m k ctx = then_pipe (m ctx) k

abbrev pub ◌>>◌ : {B : Type 0} → Pipe (Unit {0}) → Pipe B → Pipe B
m >> k = m >>= λ _. k

abbrev pub pure : {A : Type 0} → A → Pipe A
pure a ctx = done a ctx

abbrev pub throw : {A : Type 0} → Thrown → Pipe A
throw e ctx = thrown e

-- `ctx.stable.registerString(x)`
unfoldable pub register : Str → Pipe ℕ
unfolding register_string
register x ctx = let r = register_string x ctx.stable in done r.1 (record ctx { stable = r.0 })

-- `ctx.data.addInstruction(new Instruction(opcode)...)`, with the index that it returns.
unfoldable pub add : Opcode → List Operand → Pipe ℕ
unfolding add_instruction
add opcode operands ctx =
    let r = add_instruction (record { opcode = opcode; operands = operands }) ctx.data_section in
    done r.1 (record ctx { data_section = r.0 })

unfoldable pub emit_with : Opcode → List Operand → Pipe (Unit {0})
unfolding add
emit_with opcode operands = do _ ← add opcode operands; pure tt

abbrev pub emit : Opcode → Pipe (Unit {0})
emit opcode = emit_with opcode []

abbrev pub emit_short : Opcode → ℕ → Pipe (Unit {0})
emit_short opcode x = emit_with opcode (constant_short x ∷ [])

-- A name in the string table, and an instruction with its index.
abbrev pub emit_name : Opcode → Str → Pipe (Unit {0})
emit_name opcode name = do idx ← register name; emit_short opcode idx

-- `ctx.data.replaceInstruction(index, ...)`
unfoldable pub replace : ℕ → Opcode → List Operand → Pipe (Unit {0})
unfolding replace_instruction
replace index opcode operands ctx =
    elim (replace_instruction index (record { opcode = opcode; operands = operands })
      ctx.data_section) [
        | none ↦ thrown type_error
        | some d ↦ done tt (record ctx { data_section = d })
      ]

-- `ctx.data.getCount()`
abbrev pub get_count : Pipe ℕ
get_count ctx = done ctx.data_section.count ctx

-- What the language does with numbers: `value % 1 == 0`, the 32 bits of `value >> 0`, and the text
-- of an integer.
pub record Numbers : Type 0 where
  pub is_whole : ℕ → Bool
  pub to_int32 : ℕ → ℕ
  pub to_string : ℕ → Str

abbrev pub text_length : Str
text_length = b'l' ∷ b'e' ∷ b'n' ∷ b'g' ∷ b't' ∷ b'h' ∷ []

abbrev pub text_prototype : Str
text_prototype = b'p' ∷ b'r' ∷ b'o' ∷ b't' ∷ b'o' ∷ b't' ∷ b'y' ∷ b'p' ∷ b'e' ∷ []

abbrev pub text_default : Str
text_default = b'd' ∷ b'e' ∷ b'f' ∷ b'a' ∷ b'u' ∷ b'l' ∷ b't' ∷ []

abbrev pub text_undefined : Str
text_undefined = b'u' ∷ b'n' ∷ b'd' ∷ b'e' ∷ b'f' ∷ b'i' ∷ b'n' ∷ b'e' ∷ b'd' ∷ []

unfoldable pub binary_opcode : BinaryOperator → Option Opcode
binary_opcode BinaryOperator.plus = some Opcode.op_add
binary_opcode BinaryOperator.minus = some Opcode.op_minus
binary_opcode BinaryOperator.times = some Opcode.op_mul
binary_opcode BinaryOperator.divide = some Opcode.op_div
binary_opcode BinaryOperator.modulo = some Opcode.op_mod
binary_opcode BinaryOperator.bit_and = some Opcode.op_binary_and
binary_opcode BinaryOperator.bit_or = some Opcode.op_binary_or
binary_opcode BinaryOperator.bit_xor = some Opcode.op_binary_xor
binary_opcode BinaryOperator.shift_left = some Opcode.op_binary_lshft
binary_opcode BinaryOperator.shift_right = some Opcode.op_binary_rshft
binary_opcode BinaryOperator.shift_right_zero = some Opcode.op_binary_zrshft
binary_opcode BinaryOperator.strict_equal = some Opcode.op_teq
binary_opcode BinaryOperator.strict_not_equal = some Opcode.op_nteq
binary_opcode BinaryOperator.greater = some Opcode.op_gt
binary_opcode BinaryOperator.greater_equal = some Opcode.op_geq
binary_opcode BinaryOperator.less = some Opcode.op_lt
binary_opcode BinaryOperator.less_equal = some Opcode.op_leq
binary_opcode BinaryOperator.other = none

unfoldable pub emit_operator : Option Opcode → Pipe (Unit {0})
emit_operator none = throw unsupported_operator
emit_operator (some opcode) = emit opcode

unfoldable pub emit_unary : UnaryOperator → Pipe (Unit {0})
emit_unary UnaryOperator.minus = emit Opcode.op_negate
emit_unary UnaryOperator.not = emit Opcode.op_not
emit_unary UnaryOperator.bit_not = emit Opcode.op_binary_not
emit_unary UnaryOperator.typeof = emit Opcode.op_typeof
emit_unary UnaryOperator.void = do emit Opcode.op_pop; emit Opcode.op_ld_undf
emit_unary UnaryOperator.other = throw unsupported_operator

unfoldable pub load_identifier : Str → Pipe (Unit {0})
unfolding str_eq
load_identifier name =
    if str_eq name text_undefined
    then emit Opcode.op_ld_undf
    else emit_name Opcode.op_load_local name

unfoldable pub load_number : Numbers → ℕ → Pipe (Unit {0})
load_number js value =
    if js.is_whole value
    then emit_with Opcode.op_ld_int (constant_integer (js.to_int32 value) ∷ [])
    else emit_with Opcode.op_ld_double (constant_double value ∷ [])

unfoldable pub is_absent : Node → Bool
is_absent Node.absent = true
is_absent _ = false

unfoldable pub is_member : Node → Bool
is_member (Node.member_expression o p c) = true
is_member _ = false

unfoldable pub is_function_declaration : Node → Bool
is_function_declaration (Node.function_declaration i ps b) = true
is_function_declaration _ = false

unfoldable pub count_nodes : Nodes → ℕ
count_nodes Nodes.nil = 0
count_nodes (Nodes.cons n nodes) = suc (count_nodes nodes)

-- `node.name`, which registerString needs.
unfoldable pub name_of : Node → Pipe Str
name_of (Node.identifier name) = pure name
name_of _ = throw type_error
