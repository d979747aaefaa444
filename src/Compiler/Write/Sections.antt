-- ===== src/Compiler/Write/Sections.antt =====
-- Well-formed sections are written as the file format has them.
use atomix_js.Prelude.{
  ℕ, suc, ◌+◌, ◌≡◌, refl, ap, ◌∙◌, true, some, List, [], ◌∷◌, ◌++◌, Str, length, length-append, map,
  arith,
}
use mathlib.Core.Path.{subst}
use mathlib.Core.List.{append-nil}
use atomix_js.Instruction.{Opcode}
use atomix_js.Loader.Code.{Shape, shape}
use atomix_js.Loader.Write.{
  ModuleFormat, write_uint, concat, write_offsets, stable_length, write_stable, write_operands,
  write_instruction, write_instructions, operands_size, data_length, write_data, data_start,
  write_hash, write_header, write_module,
}
use atomix_js.Loader.Trip.Code.{kept}
use atomix_js.Loader.Trip.Data.{all_kept}
use atomix_js.Compiler.Sections.{
  Operand, constant_integer, constant_short, constant_double, Instruction, operand_length,
  operands_length, DataSection, STableSection,
}
use atomix_js.Compiler.Sections.Valid.{instructions_length, IsData}
use atomix_js.Compiler.Sections.Strings.{strings_length, offsets_from, IsStable}
use atomix_js.Compiler.Emit.{PipeContext}
use atomix_js.Compiler.Growth.{IsContext}
use atomix_js.Compiler.Implements.{to_inst, kind, kind_lem, has_shape, IsShaped, AllShaped}
use atomix_js.Compiler.Write.{
  write_operand, write_operand_list, write_code, write_data_section, write_offset_list,
  write_stable_section, write_module_format,
}
use atomix_js.Compiler.Correct.Run.{loaded}

-- The module that the sections hold.
abbrev pub module_format : ℕ → ℕ → PipeContext → ModuleFormat
module_format low high ctx = record {
  low = low;
  high = high;
  strings = ctx.stable.strings;
  instructions = map to_inst ctx.data_section.instructions;
}

-- What an instruction with the operands of its shape is for the writer, its length and the loader.
AgreesAt : Shape → Instruction → Type 0
AgreesAt s i =
    (write_operand_list i.operands ≡ write_operands s (to_inst i))
    × (operands_length i.operands ≡ operands_size s)
    × (kept s (to_inst i) ≡ some (to_inst i))

agrees_at :
    (s : Shape) (opcode : Opcode) (operands : List Operand)
    → has_shape s operands ≡ true
    → AgreesAt s (record { opcode = opcode; operands = operands })
unfolding AgreesAt write_operand_list write_operand write_operands operands_length operand_length
    operands_size kept
agrees_at Shape.plain o [] e = (refl, refl, refl)
agrees_at Shape.int32 o (constant_integer x ∷ []) e = (append-nil (write_uint 4 x), refl, refl)
agrees_at Shape.double64 o (constant_double x ∷ []) e = (append-nil (write_uint 8 x), refl, refl)
agrees_at Shape.uint16 o (constant_short x ∷ []) e = (append-nil (write_uint 2 x), refl, refl)
agrees_at Shape.two_uint16 o (constant_short x ∷ constant_short y ∷ []) e =
    (ap (λ b. write_uint 2 x ++ b) (append-nil (write_uint 2 y)), refl, refl)
agrees_at _ o _ e = absurd (cc e)

agrees : (i : Instruction) → IsShaped i → AgreesAt (shape i.opcode) i
agrees i e =
    subst (λ s. AgreesAt s i) (kind_lem i.opcode) (agrees_at (kind i.opcode) i.opcode i.operands e)

write_code-write_instructions :
    (code : List Instruction)
    → AllShaped code
    → write_code code ≡ write_instructions (map to_inst code)
unfolding write_code write_instructions write_instruction AgreesAt
write_code-write_instructions [] s = refl
write_code-write_instructions (i ∷ code) s =
    rw ((agrees i s.0).0, write_code-write_instructions code s.1) refl

instructions_length-data_length :
    (code : List Instruction)
    → AllShaped code
    → 8 + instructions_length code ≡ data_length (map to_inst code)
unfolding instructions_length data_length AgreesAt
instructions_length-data_length [] s = refl
instructions_length-data_length (i ∷ code) s =
    let e = (agrees i s.0).1 in omega (arith, e, instructions_length-data_length code s.1)

-- What the loader keeps of shaped code is all of it.
pub all_kept-loaded :
    (code : List Instruction) → AllShaped code → all_kept (map to_inst code) ≡ loaded code
unfolding all_kept AgreesAt
all_kept-loaded [] s = refl
all_kept-loaded (i ∷ code) s = rw ((agrees i s.0).2, all_kept-loaded code s.1) refl

pub length-map-to_inst : (code : List Instruction) → length (map to_inst code) ≡ length code
length-map-to_inst [] = refl
length-map-to_inst (i ∷ code) = ap suc (length-map-to_inst code)

write_data_section_lem :
    (d : DataSection)
    → IsData d
    → AllShaped d.instructions
    → write_data_section d ≡ write_data (map to_inst d.instructions)
unfolding write_data_section write_data
write_data_section_lem d v s =
    rw
      (
        v.sized,
        instructions_length-data_length d.instructions s,
        v.counted,
        ← length-map-to_inst d.instructions,
        write_code-write_instructions d.instructions s,
      )
      refl

write_offset_list-write_offsets :
    (k : ℕ) (strings : List Str)
    → write_offset_list (offsets_from k strings) ≡ write_offsets k strings
unfolding write_offset_list offsets_from write_offsets
write_offset_list-write_offsets k [] = refl
write_offset_list-write_offsets k (s ∷ strings) =
    ap (λ b. write_uint 4 k ++ b) (write_offset_list-write_offsets (k + length s) strings)

strings_length-concat : (strings : List Str) → strings_length strings ≡ length (concat strings)
unfolding strings_length concat
strings_length-concat [] = refl
strings_length-concat (s ∷ strings) =
    omega (arith, length-append s (concat strings), strings_length-concat strings)

stable_sized : (t : STableSection) → IsStable t → t.length ≡ stable_length t.strings
unfolding stable_length
stable_sized t v = omega (arith, v.sized, strings_length-concat t.strings)

write_stable_section_lem :
    (t : STableSection) → IsStable t → write_stable_section t ≡ write_stable t.strings
unfolding write_stable_section write_stable
write_stable_section_lem t v =
    ap
      (λ n.
        write_uint 4 n
        ++ (write_uint 4 t.count ++ (write_offset_list t.offsets ++ concat t.strings)))
      (stable_sized t v)
    ∙ ap
        (λ n.
          write_uint 4 (stable_length t.strings)
          ++ (write_uint 4 n ++ (write_offset_list t.offsets ++ concat t.strings)))
        v.counted
    ∙ ap
        (λ b.
          write_uint 4 (stable_length t.strings)
          ++ (write_uint 4 (length t.strings) ++ (b ++ concat t.strings)))
        (ap write_offset_list v.placed ∙ write_offset_list-write_offsets 0 t.strings)

-- The bytes of a module with well-formed sections and shaped instructions are those of the format.
pub write_module_format_lem :
    (low high : ℕ) (ctx : PipeContext)
    → IsContext ctx
    → AllShaped ctx.data_section.instructions
    → write_module_format low high ctx.stable ctx.data_section
      ≡ write_module (module_format low high ctx)
unfolding write_module_format write_module write_header write_hash data_start
write_module_format_lem low high ctx v s =
    rw
      (
        write_stable_section_lem ctx.stable v.stable_valid,
        write_data_section_lem ctx.data_section v.data_valid s,
        stable_sized ctx.stable v.stable_valid,
      )
      refl
