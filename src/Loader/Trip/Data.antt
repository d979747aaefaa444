-- ===== src/Loader/Trip/Data.antt =====
-- The data section that atomixc writes, read back by the loader.
use atomix_js.Prelude.{ℕ, ◌+◌, ◌≡◌, ◌<◌, refl, List, [], ◌∷◌, ◌++◌, length, Option}
use native.Mathlib.Nat.{add_assoc}
use mathlib.Core.Path.{subst}
use atomix_js.Instruction.{Inst}
use atomix_js.Vm.{Vm}
use atomix_js.Vm.Exec.{Host, gc_malloc}
use atomix_js.Vm.Succeeds.{Succeeds, succeeds, Succeeds-bind, Allocates}
use atomix_js.Loader.Bytes.{Buffer}
use atomix_js.Loader.Code.{DataSection, shape, load_instructions, load_data_section}
use atomix_js.Loader.Write.{
  write_uint, write_instruction, write_instructions, data_length, write_data,
}
use atomix_js.Loader.Trip.Code.{OperandsFit, Gives, kept, load_instruction_lem}
use atomix_js.Loader.Trip.Holds.{
  Holds, Holds-front, Holds-back, byte_bound, Holds-next, read_uint-front,
}

unfoldable pub AllFit : List Inst → Type 0
AllFit [] = Unit
AllFit (i ∷ is) = OperandsFit (shape i.opcode) i × AllFit is

unfoldable pub all_kept : List Inst → List (Option Inst)
all_kept [] = []
all_kept (i ∷ is) = kept (shape i.opcode) i ∷ all_kept is

-- A section holds the instructions.
abbrev pub IsSectionOf : List Inst → DataSection → Vm → Type 0
IsSectionOf is d vm = (d.count ≡ length is) × (d.instructions ≡ all_kept is)

module _ (h : Host) (memory : Allocates h) (buff : Buffer) where
  load_instructions_lem :
      (is : List Inst) (position : ℕ) (vm : Vm)
      → AllFit is
      → Holds buff position (write_instructions is)
      → Succeeds (Gives (all_kept is)) (load_instructions h buff (length is) position vm)
  unfolding load_instructions AllFit all_kept write_instructions
  load_instructions_lem [] position vm fits held = succeeds refl
  load_instructions_lem (i ∷ is) position vm fits held =
      Succeeds-bind
        (load_instruction_lem h memory buff i position vm fits.0
          (Holds-front position (write_instruction i) (write_instructions is) held))
        λ loaded w e. rw e (
          Succeeds-bind
            (load_instructions_lem is (position + length (write_instruction i)) w fits.1
              (Holds-back position (write_instruction i) (write_instructions is) held))
            λ rest w1 e1. rw e1 (succeeds refl))

  pub load_data_section_lem :
      (is : List Inst) (start : ℕ) (vm : Vm)
      → AllFit is
      → length is < byte_bound 4
      → data_length is < byte_bound 4
      → Holds buff start (write_data is)
      → Succeeds (IsSectionOf is) (load_data_section h buff start vm)
  unfolding load_data_section write_data gc_malloc
  load_data_section_lem is start vm fits count_fits length_fits held =
      rw
        (
          read_uint-front buff 4 (data_length is) start counted length_fits held,
          read_uint-front buff 4 (length is) (start + 4) code count_fits behind,
          memory.never_null vm.heap.allocs,
        )
        (Succeeds-bind
          (load_instructions_lem is (start + 8) _ fits (
            subst (λ p. Holds buff p code) (add_assoc start 4 4)
              (Holds-next buff 4 (length is) (start + 4) code behind)))
          λ rest w e. succeeds (refl, e))
    where
      code : Buffer
      code = write_instructions is

      counted : Buffer
      counted = write_uint 4 (length is) ++ code

      behind : Holds buff (start + 4) counted
      behind = Holds-next buff 4 (data_length is) start counted held
