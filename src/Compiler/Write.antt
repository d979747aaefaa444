-- ===== src/Compiler/Write.antt =====
-- The `writeTo` functions of the sections and of ModuleFormat: atomixc/src/format/stable.ts, data.ts
-- and module.ts, and the operands of atomixc/src/opcodes.ts. A number is in the range of its field; the
-- buffer's functions throw for any other.
pub mod Sections
use atomix_js.Prelude.{ℕ, ◌+◌, List, [], ◌∷◌, ◌++◌, Str}
use atomix_js.Loader.Bytes.{Buffer}
use atomix_js.Loader.Write.{write_uint, concat}
use atomix_js.Loader.Write.Opcodes.{byte_of_opcode}
use atomix_js.Compiler.Sections.{
  Operand, constant_integer, constant_short, constant_double, Instruction, DataSection,
  STableSection,
}

unfoldable pub write_operand : Operand → Buffer
write_operand (constant_integer x) = write_uint 4 x
write_operand (constant_short x) = write_uint 2 x
write_operand (constant_double x) = write_uint 8 x

unfoldable pub write_operand_list : List Operand → Buffer
unfolding write_operand
write_operand_list [] = []
write_operand_list (o ∷ operands) = write_operand o ++ write_operand_list operands

unfoldable pub write_code : List Instruction → Buffer
unfolding write_operand_list byte_of_opcode
write_code [] = []
write_code (i ∷ instructions) =
    (byte_of_opcode i.opcode ∷ write_operand_list i.operands) ++ write_code instructions

unfoldable pub write_data_section : DataSection → Buffer
unfolding write_code
write_data_section d = write_uint 4 d.length ++ (write_uint 4 d.count ++ write_code d.instructions)

unfoldable pub write_offset_list : List ℕ → Buffer
write_offset_list [] = []
write_offset_list (offset ∷ offsets) = write_uint 4 offset ++ write_offset_list offsets

unfoldable pub write_stable_section : STableSection → Buffer
unfolding write_offset_list
write_stable_section t =
    write_uint 4 t.length
    ++ (write_uint 4 t.count ++ (write_offset_list t.offsets ++ concat t.strings))

-- `buildModule`, and the module's `writeTo`. `low` and `high` are the two numbers of the hash.
unfoldable pub write_module_format : ℕ → ℕ → STableSection → DataSection → Buffer
unfolding write_stable_section write_data_section
write_module_format low high stable data_section =
    (46 ∷ 65 ∷ 120 ∷ 77 ∷ 2 ∷ 0 ∷ [])
    ++ ((write_uint 4 low ++ write_uint 4 high)
        ++ (write_uint 4 22 ++ write_uint 4 (22 + stable.length))
        ++ (write_stable_section stable ++ write_data_section data_section))
