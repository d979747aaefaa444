-- ===== src/Loader/Code.antt =====
-- `load_instruction` and `load_data_section` of core/loader.c.
use atomix_js.Prelude.{
  ℕ, zero, suc, ◌+◌, not, ◌&&◌, List, [], ◌∷◌, Option, none, some, ◌==◌, if◌then◌else◌,
}
use atomix_js.Instruction.{Opcode, Inst, opcode_of_byte}
use atomix_js.Vm.{null}
use atomix_js.Vm.Exec.{Exec, pure, crash, lift, ◌>>=◌, Host, gc_malloc, gc_malloc_unchecked}
use atomix_js.Loader.Bytes.{Buffer, byte_at, read_uint}

pub record DataSection : Type 0 where
  pub length : ℕ
  pub count : ℕ
  pub instructions : List (Option Inst)

-- The cases of the switch: no struct, `Inst`, `InstInt32`, `InstDouble`, `InstUInt16` and
-- `Inst2UInt16`.
pub data Shape : Type 0 where
  skipped plain int32 double64 uint16 two_uint16 : Shape

unfoldable pub shape : Opcode → Shape
shape Opcode.op_nop = skipped
shape Opcode.op_ld_int = int32
shape Opcode.op_ld_double = double64
shape Opcode.op_ld_string = uint16
shape Opcode.op_alloc_local = uint16
shape Opcode.op_store_local = uint16
shape Opcode.op_load_local = uint16
shape Opcode.op_load_arg = uint16
shape Opcode.op_func_decl_e = uint16
shape Opcode.op_call = uint16
shape Opcode.op_obj_store = uint16
shape Opcode.op_obj_load = uint16
shape Opcode.op_jmp = uint16
shape Opcode.op_jmp_f = uint16
shape Opcode.op_jmp_t = uint16
shape Opcode.op_export = uint16
shape Opcode.op_func_decl = two_uint16
shape _ = plain

-- The instruction, NULL where nothing is allocated, and the position behind it.
abbrev pub Loaded : Type 0
Loaded = Option Inst × ℕ

module _ (h : Host) (buff : Buffer) where
  -- One operand of `n` bytes.
  unfoldable pub load_operand : ℕ → Opcode → ℕ → Exec Loaded
  load_operand n o position = do
    x ← gc_malloc_unchecked h
    operand ← lift (read_uint n buff position)
    pure (some (record { opcode = o; operand = operand; operand2 = 0 }), position + n)

  unfoldable pub load_shape : Shape → Opcode → ℕ → Exec Loaded
  load_shape skipped o position = pure (none, position)
  load_shape plain o position = do
    x ← gc_malloc_unchecked h
    pure (some (record { opcode = o; operand = 0; operand2 = 0 }), position)
  load_shape int32 o position = load_operand 4 o position
  load_shape double64 o position = load_operand 8 o position
  load_shape uint16 o position = load_operand 2 o position
  load_shape two_uint16 o position = do
    x ← gc_malloc_unchecked h
    operand ← lift (read_uint 2 buff position)
    operand2 ← lift (read_uint 2 buff (position + 2))
    pure (some (record { opcode = o; operand = operand; operand2 = operand2 }), position + 4)

  -- A byte that is no opcode takes the default case.
  unfoldable pub load_opcode : Option Opcode → ℕ → Exec Loaded
  load_opcode none position = pure (none, position)
  load_opcode (some o) position = load_shape (shape o) o position

  unfoldable pub load_instruction : ℕ → Exec Loaded
  load_instruction position = do
    opcode ← lift (byte_at buff position)
    load_opcode (opcode_of_byte opcode) (position + 1)

  unfoldable pub load_instructions : ℕ → ℕ → Exec (List (Option Inst))
  load_instructions zero position = pure []
  load_instructions (suc n) position = do
    loaded ← load_instruction position
    rest ← load_instructions n loaded.1
    pure (loaded.0 ∷ rest)

  -- The section at `start`.
  unfoldable pub load_data_section : ℕ → Exec DataSection
  load_data_section start = do
    length ← lift (read_uint 4 buff start)
    count ← lift (read_uint 4 buff (start + 4))
    p ← gc_malloc h
    if p == null && not (count == 0) then crash else do
      instructions ← load_instructions count (start + 8)
      pure (record { length = length; count = count; instructions = instructions })
