-- ===== src/Loader/Write.antt =====
-- The files that atomixc writes: src/binary.ts and src/format of atomixc. Text is Latin-1, a list
-- of codes below 256.
pub mod Opcodes
use atomix_js.Prelude.{ℕ, zero, suc, ◌+◌, ◌*◌, ◌/◌, ◌%◌, List, [], ◌∷◌, ◌++◌, Str, length}
use atomix_js.Prelude.Word.{u32_mod}
use atomix_js.Instruction.{Opcode, Inst}
use atomix_js.Loader.Bytes.{Buffer}
use atomix_js.Loader.Code.{Shape, skipped, plain, int32, double64, uint16, two_uint16, shape}
use atomix_js.Loader.Write.Opcodes.{byte_of_opcode}

-- `writeU16`, `writeU32`, `writeDouble`: `n` bytes, the lowest one first.
unfoldable pub write_uint : ℕ → ℕ → Buffer
write_uint zero x = []
write_uint (suc n) x = x % 256 ∷ write_uint n (x / 256)

-- The strings by writeString: a string is its characters, each of a code below 256 and so one byte.
-- On any other, writeU8 throws, and there is no file.
unfoldable pub concat : List Buffer → Buffer
concat [] = []
concat (b ∷ bs) = b ++ concat bs

-- STableSection: the offset of each string is the length of those before it.
unfoldable pub write_offsets : ℕ → List Str → Buffer
write_offsets offset [] = []
write_offsets offset (s ∷ strings) =
    write_uint 4 offset ++ write_offsets (offset + length s) strings

unfoldable pub stable_length : List Str → ℕ
stable_length strings = 8 + 4 * length strings + length (concat strings)

unfoldable pub write_stable : List Str → Buffer
write_stable strings =
    write_uint 4 (stable_length strings)
    ++ (write_uint 4 (length strings) ++ (write_offsets 0 strings ++ concat strings))

unfoldable pub write_operands : Shape → Inst → Buffer
write_operands skipped i = []
write_operands plain i = []
write_operands int32 i = write_uint 4 i.operand
write_operands double64 i = write_uint 8 i.operand
write_operands uint16 i = write_uint 2 i.operand
write_operands two_uint16 i = write_uint 2 i.operand ++ write_uint 2 i.operand2

unfoldable pub write_instruction : Inst → Buffer
write_instruction i = byte_of_opcode i.opcode ∷ write_operands (shape i.opcode) i

unfoldable pub write_instructions : List Inst → Buffer
write_instructions [] = []
write_instructions (i ∷ instructions) = write_instruction i ++ write_instructions instructions

-- What `addInstruction` adds to the length: the size of a double operand is given as one int there.
unfoldable pub operands_size : Shape → ℕ
operands_size skipped = 0
operands_size plain = 0
operands_size int32 = 4
operands_size double64 = 4
operands_size uint16 = 2
operands_size two_uint16 = 4

unfoldable pub data_length : List Inst → ℕ
data_length [] = 8
data_length (i ∷ instructions) = 1 + operands_size (shape i.opcode) + data_length instructions

unfoldable pub write_data : List Inst → Buffer
write_data instructions =
    write_uint 4 (data_length instructions)
    ++ (write_uint 4 (length instructions) ++ write_instructions instructions)

-- ModuleFormat, as `buildModule` makes it. `low` and `high` are the two numbers of the hash.
pub record ModuleFormat : Type 0 where
  pub low : ℕ
  pub high : ℕ
  pub strings : List Str
  pub instructions : List Inst

unfoldable pub data_start : ModuleFormat → ℕ
data_start m = 22 + stable_length m.strings

unfoldable pub write_hash : ℕ → ℕ → Buffer
write_hash low high = write_uint 4 low ++ write_uint 4 high

unfoldable pub write_header : ModuleFormat → Buffer
write_header m = write_hash m.low m.high ++ (write_uint 4 22 ++ write_uint 4 (data_start m))

unfoldable pub write_module : ModuleFormat → Buffer
write_module m =
    (46 ∷ 65 ∷ 120 ∷ 77 ∷ 2 ∷ 0 ∷ [])
    ++ (write_header m ++ (write_stable m.strings ++ write_data m.instructions))

unfoldable pub write_modules : List ModuleFormat → Buffer
write_modules [] = []
write_modules (m ∷ modules) = write_module m ++ write_modules modules

-- BundleFormat, with the modules in the order in which they are written.
unfoldable pub write_bundle : ℕ → ℕ → List ModuleFormat → Buffer
write_bundle low high modules =
    (46 ∷ 65 ∷ 120 ∷ 66 ∷ 1 ∷ 0 ∷ [])
    ++ (write_hash low high ++ (write_uint 2 (length modules) ++ write_modules modules))
