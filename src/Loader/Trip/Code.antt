-- ===== src/Loader/Trip/Code.antt =====
-- The data section that atomixc writes, read back by the loader.
use atomix_js.Prelude.{
  ℕ, suc, ◌+◌, ◌≡◌, ◌<◌, refl, length, length-append, arith, Option, none, some,
}
use native.Mathlib.Nat.{add-zero}
use mathlib.Core.Path.{subst}
use atomix_js.Instruction.{Opcode, Inst}
use atomix_js.Vm.{Vm}
use atomix_js.Vm.Exec.{Host}
use atomix_js.Vm.Succeeds.{
  Succeeds, succeeds, Succeeds-bind, Allocates, gc_malloc_unchecked-Succeeds,
}
use atomix_js.Loader.Bytes.{Buffer}
use atomix_js.Loader.Code.{
  Shape, skipped, plain, int32, double64, uint16, two_uint16, shape, load_operand, load_shape,
  load_opcode, load_instruction,
}
use atomix_js.Loader.Write.{write_uint, write_operands, write_instruction}
use atomix_js.Loader.Write.Opcodes.{byte_of_opcode, opcode_of_byte-byte_of_opcode}
use atomix_js.Loader.Trip.Holds.{
  Holds, Holds-front, Holds-back, Holds-tail, byte_at-Holds, byte_bound, length-write_uint,
  read_uint-write_uint,
}

-- The operands of an instruction fit their fields.
unfoldable pub OperandsFit : Shape → Inst → Type 0
OperandsFit skipped i = Unit
OperandsFit plain i = Unit
OperandsFit int32 i = i.operand < byte_bound 4
OperandsFit double64 i = i.operand < byte_bound 8
OperandsFit uint16 i = i.operand < byte_bound 2
OperandsFit two_uint16 i = (i.operand < byte_bound 2) × (i.operand2 < byte_bound 2)

-- What the loader keeps of an instruction.
unfoldable pub kept : Shape → Inst → Option Inst
kept skipped i = none
kept plain i = some (record { opcode = i.opcode; operand = 0; operand2 = 0 })
kept int32 i = some (record { opcode = i.opcode; operand = i.operand; operand2 = 0 })
kept double64 i = some (record { opcode = i.opcode; operand = i.operand; operand2 = 0 })
kept uint16 i = some (record { opcode = i.opcode; operand = i.operand; operand2 = 0 })
kept two_uint16 i = some (record { opcode = i.opcode; operand = i.operand; operand2 = i.operand2 })

abbrev pub Gives : {A : Type 0} → A → A → Vm → Type 0
Gives a b vm = b ≡ a

module _ (h : Host) (memory : Allocates h) (buff : Buffer) where
  load_operand_lem :
      (n : ℕ) (o : Opcode) (x position : ℕ) (vm : Vm)
      → x < byte_bound n
      → Holds buff position (write_uint n x)
      → Succeeds
          (Gives (
            some (record { opcode = o; operand = x; operand2 = 0 }),
            position + length (write_uint n x),
          ))
          (load_operand h buff n o position vm)
  unfolding load_operand
  load_operand_lem n o x position vm fits held =
      Succeeds-bind (gc_malloc_unchecked-Succeeds h memory vm) λ p w u.
        rw (read_uint-write_uint n x buff position fits held, length-write_uint n x) (succeeds refl)

  load_shape_lem :
      (s : Shape) (i : Inst) (position : ℕ) (vm : Vm)
      → OperandsFit s i
      → Holds buff position (write_operands s i)
      → Succeeds
          (Gives (kept s i, position + length (write_operands s i)))
          (load_shape h buff s i.opcode position vm)
  unfolding load_shape OperandsFit write_operands kept
  load_shape_lem skipped i position vm fits held = rw add-zero (succeeds refl)
  load_shape_lem plain i position vm fits held =
      Succeeds-bind (gc_malloc_unchecked-Succeeds h memory vm) λ p w u. rw add-zero (succeeds refl)
  load_shape_lem int32 i position vm fits held =
      load_operand_lem 4 i.opcode i.operand position vm fits held
  load_shape_lem double64 i position vm fits held =
      load_operand_lem 8 i.opcode i.operand position vm fits held
  load_shape_lem uint16 i position vm fits held =
      load_operand_lem 2 i.opcode i.operand position vm fits held
  load_shape_lem two_uint16 i position vm fits held =
      Succeeds-bind (gc_malloc_unchecked-Succeeds h memory vm) λ p w u.
        rw
          (
            read_uint-write_uint 2 i.operand buff position fits.0
                (Holds-front position low high held),
            read_uint-write_uint 2 i.operand2 buff (position + 2) fits.1 (
                subst (λ n. Holds buff (position + n) high) (length-write_uint 2 i.operand)
                  (Holds-back position low high held)),
            length-append low high,
            length-write_uint 2 i.operand,
            length-write_uint 2 i.operand2,
          )
          (succeeds refl)
    where
      low : Buffer
      low = write_uint 2 i.operand

      high : Buffer
      high = write_uint 2 i.operand2

  pub load_instruction_lem :
      (i : Inst) (position : ℕ) (vm : Vm)
      → OperandsFit (shape i.opcode) i
      → Holds buff position (write_instruction i)
      → Succeeds
          (Gives (kept (shape i.opcode) i, position + length (write_instruction i)))
          (load_instruction h buff position vm)
  unfolding load_instruction write_instruction load_opcode
  load_instruction_lem i position vm fits held =
      rw
        (
          byte_at-Holds position (byte_of_opcode i.opcode) (write_operands (shape i.opcode) i) held,
          opcode_of_byte-byte_of_opcode i.opcode,
          regroup position (length (write_operands (shape i.opcode) i)),
        )
        (load_shape_lem (shape i.opcode) i (position + 1) vm fits
          (Holds-tail position (byte_of_opcode i.opcode) (write_operands (shape i.opcode) i) held))
    where
      regroup : (n m : ℕ) → n + suc m ≡ n + 1 + m
      regroup n m = omega arith
