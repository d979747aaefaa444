-- ===== src/Compiler/Sections/Valid.antt =====
-- The well-formed data section of atomixc, which its operations keep well formed.
use atomix_js.Prelude.{
  ℕ, zero, suc, ◌+◌, ◌-◌, ◌≤◌, ◌≡◌, refl, ap, ◌∙◌, sym, List, [], ◌∷◌, ◌++◌, Option, none, some,
  length, length-append, length-set, get_elem?, set, arith,
}
use atomix_js.Compiler.Sections.{
  Instruction, operands_length, DataSection, add_instruction, replace_instruction, new_data_section,
}

-- The bytes of instructions: one for the opcode, and the lengths that the operands state.
unfoldable pub instructions_length : List Instruction → ℕ
instructions_length [] = 0
instructions_length (i ∷ instructions) =
    1 + operands_length i.operands + instructions_length instructions

pub record IsData (d : DataSection) : Type 0 where
  pub counted : d.count ≡ length d.instructions
  pub sized : d.length ≡ 8 + instructions_length d.instructions

instructions_length-append :
    (xs ys : List Instruction)
    → instructions_length (xs ++ ys) ≡ instructions_length xs + instructions_length ys
unfolding instructions_length
instructions_length-append [] ys = omega arith
instructions_length-append (x ∷ xs) ys = omega (arith, instructions_length-append xs ys)

abbrev stated : Option Instruction → ℕ
stated none = 0
stated (some i) = operands_length i.operands

operands-le :
    (xs : List Instruction) (i : ℕ) (o : Instruction)
    → get_elem? xs i ≡ some o
    → operands_length o.operands ≤ instructions_length xs
unfolding instructions_length
operands-le [] i o e = cc
operands-le (x ∷ xs) zero o e =
    let l : operands_length x.operands ≡ operands_length o.operands = ap stated e in omega arith
operands-le (x ∷ xs) (suc i) o e = omega (arith, operands-le xs i o e)

instructions_length-set :
    (xs : List Instruction) (i : ℕ) (old new : Instruction)
    → get_elem? xs i ≡ some old
    → instructions_length (set xs i new) + operands_length old.operands
      ≡ instructions_length xs + operands_length new.operands
unfolding instructions_length
instructions_length-set [] i old new e = cc
instructions_length-set (x ∷ xs) zero old new e =
    let l : operands_length x.operands ≡ operands_length old.operands = ap stated e in omega arith
instructions_length-set (x ∷ xs) (suc i) old new e =
    omega (arith, instructions_length-set xs i old new e)

pub add_instruction-IsData :
    (i : Instruction) (d : DataSection) → IsData d → IsData (add_instruction i d).0
unfolding add_instruction instructions_length
add_instruction-IsData i d v = record {
  counted = omega (arith, length-append d.instructions (i ∷ []), v.counted);
  sized = omega (arith, instructions_length-append d.instructions (i ∷ []), v.sized);
}

-- Where the index is in the array, the instruction is replaced.
pub replace_instruction-IsData :
    (index : ℕ) (i old : Instruction) (d : DataSection)
    → IsData d
    → get_elem? d.instructions index ≡ some old
    → (d' : DataSection) × (replace_instruction index i d ≡ some d')
      × (d'.instructions ≡ set d.instructions index i)
      × (d'.count ≡ d.count)
      × IsData d'
unfolding replace_instruction
replace_instruction-IsData index i old d v e = (
  record d {
    length = d.length - operands_length old.operands + operands_length i.operands;
    instructions = set d.instructions index i;
  },
  rw (e, replace_instruction) refl,
  refl,
  refl,
  record {
    counted = v.counted ∙ sym (length-set d.instructions index i);
    sized = omega (
      arith,
      instructions_length-set d.instructions index old i e,
      v.sized,
      operands-le d.instructions index old e,
    );
  },
)

pub new_data_section-IsData : IsData new_data_section
unfolding new_data_section instructions_length
new_data_section-IsData = record { counted = refl; sized = refl }
