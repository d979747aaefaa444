-- ===== src/Compiler/Sections.antt =====
-- The sections of a module that atomixc/src/format/data.ts and stable.ts collect, and the operands of
-- atomixc/src/opcodes.ts.
pub mod Valid
pub mod Strings
use atomix_js.Prelude.{
  ℕ, zero, suc, ◌+◌, ◌-◌, ◌*◌, List, [], ◌∷◌, ◌++◌, Option, none, some, Str, str_eq, length,
  get_elem?, set, if◌then◌else◌, ◌==◌,
}
use atomix_js.Instruction.{Opcode, Inst}

-- ConstantIntegerOperand, with the 32 bits of `value >> 0`; ConstantUNumberOperand of the unit
-- "short"; ConstantDoubleOperand, with 64 bits.
pub data Operand : Type 0 where
  constant_integer : ℕ → Operand
  constant_short : ℕ → Operand
  constant_double : ℕ → Operand

pub record Instruction : Type 0 where
  pub opcode : Opcode
  pub operands : List Operand

-- `operand.length`, in bytes. A double says that it has four.
unfoldable pub operand_length : Operand → ℕ
operand_length (constant_integer x) = 4
operand_length (constant_short x) = 2
operand_length (constant_double x) = 4

unfoldable pub operands_length : List Operand → ℕ
unfolding operand_length
operands_length [] = 0
operands_length (o ∷ operands) = operand_length o + operands_length operands

pub record DataSection : Type 0 where
  pub length : ℕ
  pub count : ℕ
  pub instructions : List Instruction

unfoldable pub new_data_section : DataSection
new_data_section = record { length = 8; count = 0; instructions = [] }

-- The index of the new instruction is the old count.
unfoldable pub add_instruction : Instruction → DataSection → DataSection × ℕ
unfolding operands_length
add_instruction instruction d = (
  record {
    length = d.length + 1 + operands_length instruction.operands;
    count = d.count + 1;
    instructions = d.instructions ++ instruction ∷ [];
  },
  d.count,
)

-- `none` where the index is outside the array: reading the operands of undefined throws.
unfoldable pub replace_instruction : ℕ → Instruction → DataSection → Option DataSection
unfolding operands_length
replace_instruction index instruction d = elim (get_elem? d.instructions index) [
  | none ↦ none
  | some old ↦ some (record d {
    length = d.length - operands_length old.operands + operands_length instruction.operands;
    instructions = set d.instructions index instruction;
  })
]

pub record STableSection : Type 0 where
  pub length : ℕ
  pub count : ℕ
  pub offsets : List ℕ
  pub strings : List Str

unfoldable pub new_stable_section : STableSection
new_stable_section = record { length = 8; count = 0; offsets = []; strings = [] }

-- `this.strings.indexOf(x)`, counted from `i`.
unfoldable pub index_of : ℕ → Str → List Str → Option ℕ
unfolding str_eq
index_of i x [] = none
index_of i x (s ∷ strings) = if str_eq s x then some i else index_of (i + 1) x strings

-- `this.offsets[this.count - 1]` and `this.strings[this.count - 1].length`, which are there.
unfoldable pub next_offset : STableSection → ℕ
next_offset t = if t.count == 0 then 0 else elim (get_elem? t.offsets (t.count - 1)) [
  | none ↦ 0
  | some offset ↦ elim (get_elem? t.strings (t.count - 1)) [ none ↦ 0 | some s ↦ offset + length s ]
]

unfoldable pub append_string : Str → STableSection → STableSection × ℕ
unfolding next_offset
append_string x t = (
  record {
    length = t.length + 4 + length x;
    count = t.count + 1;
    offsets = t.offsets ++ next_offset t ∷ [];
    strings = t.strings ++ x ∷ [];
  },
  t.count,
)

unfoldable pub register_string : Str → STableSection → STableSection × ℕ
unfolding index_of append_string
register_string x t = elim (index_of 0 x t.strings) [
  | some idx ↦ (t, idx)
  | none ↦ append_string x t
]
