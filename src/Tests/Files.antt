-- ===== src/Tests/Files.antt =====
-- core/loader.c on concrete files.
use atomix_js.Prelude.{
  get_elem?, some, ℕ, ◌+◌, ◌≡◌, ◌<◌, refl, false, Option, List, [], ◌∷◌, arith, Str,
}
use atomix_js.Prelude.Result.{ok, invalid_magic, invalid_version}
use atomix_js.Format.{string_table_load_str}
use atomix_js.Instruction.{
  Inst, Opcode, op_add, op_func_decl, op_ld_double, op_ld_int, op_nop, op_return,
}
use atomix_js.Vm.{Vm, Ptr}
use atomix_js.Vm.Exec.{panicked}
use atomix_js.Vm.Succeeds.{Succeeds, Allocates}
use atomix_js.Vm.Returns.{Returns}
use atomix_js.Execution.Run.{calls, vm_exec, run_instruction}
use atomix_js.Core.{core_natives}
use atomix_js.Loader.Files.{
  load_bundle, load_module, module_load_from_buffer_offset, unknown_load_from_buffer,
}
use atomix_js.Loader.Safe.{StoredSound, module_load_from_buffer_offset-IsSound, vm_exec-IsSound}
use atomix_js.Loader.Code.{shape}
use atomix_js.Loader.Strings.{load_string_table}
use atomix_js.Loader.Write.{
  ModuleFormat, concat, data_length, data_start, operands_size, stable_length, write_bundle,
  write_module, write_stable,
}
use atomix_js.Loader.Trip.Bundle.{
  unknown_load_from_buffer-write_module, unknown_load_from_buffer-write_bundle,
  unknown_load_from_buffer_many,
}
use atomix_js.Loader.Trip.Modules.{InBundle}
use atomix_js.Loader.Trip.Code.{OperandsFit}
use atomix_js.Loader.Trip.Data.{AllFit}
use atomix_js.Loader.Trip.Errors.{
  unknown_load_from_buffer_magic, unknown_load_from_buffer_version, load_string_table-load_str,
}
use atomix_js.Loader.Trip.Holds.{Holds-self}
use atomix_js.Loader.Trip.Module.{HoldsModule, IsWritable}
use atomix_js.Loader.Trip.Table.{HasNoNul}
use atomix_js.Tests.Machines.{code, host, machine}

pub memory : Allocates host
memory = record { never_null = λ n. ground arith }

abbrev inst : Opcode → ℕ → ℕ → Inst
inst o a b = record { opcode = o; operand = a; operand2 = b }

abbrev texts : List Str
texts = (b'h' ∷ b'i' ∷ []) ∷ (b'a' ∷ []) ∷ []

-- Two strings and an instruction of each shape.
abbrev sample : ModuleFormat
sample = record {
  low = 7;
  high = 9;
  strings = texts;
  instructions =
      inst op_nop 0 0
      ∷ inst op_ld_int 4294967295 0
      ∷ inst op_ld_double 4611686018427387904 0
      ∷ inst op_func_decl 1 300
      ∷ inst op_add 0 0
      ∷ inst op_return 0 0
      ∷ [];
}

sample-IsWritable : IsWritable sample
unfolding data_start stable_length concat data_length operands_size shape AllFit OperandsFit
sample-IsWritable = record {
  low_fits = omega arith;
  high_fits = omega arith;
  data_start_fits = omega arith;
  count_fits = omega arith;
  length_fits = omega arith;
  operands_fit = (tt, (omega arith, (omega arith, ((omega arith, omega arith), (tt, (tt, tt))))));
}

sample_other : stable_length sample.strings ≡ 0x4D78_412E → ⊥
unfolding stable_length concat
sample_other e = omega arith

texts_small : stable_length texts < 4294967296
unfolding stable_length concat
texts_small = omega arith

unknown_load_from_buffer-write_module_example :
    Succeeds
      (λ r w. (r ≡ load_module) × HoldsModule sample 3 w)
      (unknown_load_from_buffer host (write_module sample) 3 4 (machine []))
unknown_load_from_buffer-write_module_example =
    unknown_load_from_buffer-write_module host memory (write_module sample) sample 3 4 (machine [])
      sample-IsWritable (Holds-self (write_module sample))

unknown_load_from_buffer-write_bundle_example :
    Succeeds
      (λ r w. (r ≡ load_bundle) × ((p : Ptr) × InBundle sample 4 p w))
      (unknown_load_from_buffer host (write_bundle 7 9 (sample ∷ [])) 3 4 (machine []))
unknown_load_from_buffer-write_bundle_example =
    unknown_load_from_buffer-write_bundle host memory (write_bundle 7 9 (sample ∷ [])) 7 9 sample 3
      4 (machine []) (omega arith) (omega arith) sample-IsWritable
      (Holds-self (write_bundle 7 9 (sample ∷ [])))

unknown_load_from_buffer_many_example :
    unknown_load_from_buffer host (write_bundle 7 9 (sample ∷ sample ∷ [])) 3 4 (machine [])
    ≡ panicked invalid_magic
unknown_load_from_buffer_many_example =
    unknown_load_from_buffer_many host memory (write_bundle 7 9 (sample ∷ sample ∷ [])) 7 9 sample 3
      4 (machine []) (omega arith) (omega arith) sample-IsWritable sample [] (omega arith)
      sample_other (Holds-self (write_bundle 7 9 (sample ∷ sample ∷ [])))

load_string_table-load_str_example :
    Succeeds
      (λ table w. string_table_load_str table 1 ≡ ok (b'a' ∷ []))
      (load_string_table host (write_stable texts) 0 (machine []))
unfolding HasNoNul
load_string_table-load_str_example =
    load_string_table-load_str host memory (write_stable texts) texts 0 1 (b'a' ∷ []) (machine [])
      texts_small refl (refl, tt) (Holds-self (write_stable texts))

unknown_load_from_buffer_magic_example :
    unknown_load_from_buffer host (46 ∷ 65 ∷ 120 ∷ 78 ∷ 2 ∷ []) 3 4 (machine [])
    ≡ panicked invalid_magic
unknown_load_from_buffer_magic_example =
    unknown_load_from_buffer_magic host (46 ∷ 65 ∷ 120 ∷ 78 ∷ 2 ∷ []) 3 4 (machine []) 46 65 120 78
      (2 ∷ []) (Holds-self (46 ∷ 65 ∷ 120 ∷ 78 ∷ 2 ∷ [])) refl refl

unknown_load_from_buffer_version_example :
    unknown_load_from_buffer host (46 ∷ 65 ∷ 120 ∷ 77 ∷ 1 ∷ 0 ∷ []) 3 4 (machine [])
    ≡ panicked invalid_version
unknown_load_from_buffer_version_example =
    unknown_load_from_buffer_version host (46 ∷ 65 ∷ 120 ∷ 77 ∷ 1 ∷ 0 ∷ []) 3 4 (machine []) false 1
      0 [] (Holds-self (46 ∷ 65 ∷ 120 ∷ 77 ∷ 1 ∷ 0 ∷ [])) (λ e. omega arith)

module_load_from_buffer_offset-IsSound_example :
    Returns
      (λ next w. StoredSound 3 w)
      (module_load_from_buffer_offset host (write_module sample) 3 0 (machine []))
module_load_from_buffer_offset-IsSound_example =
    module_load_from_buffer_offset-IsSound host (write_module sample) 3 0 (machine [])

-- Module 3 at its first instruction.
abbrev at_start : Vm
at_start = record (machine []) { stats = record (machine []).stats { instruction_counter = 0 } }

vm_exec-IsSound_example :
    (i : Option Inst) × (get_elem? code.instructions 0 ≡ some i)
    × (vm_exec host (calls host (core_natives host) 2) at_start
        ≡ run_instruction host
            (calls host (core_natives host) 2)
            i
            (record at_start { stats = record at_start.stats { instruction_counter = 0 + 1 } }))
vm_exec-IsSound_example =
    vm_exec-IsSound host (calls host (core_natives host) 2) code at_start refl
      (record { instructions_counted = refl; count_fits = omega arith; offsets_counted = refl })
      (omega arith)
