-- ===== src/Tests/Compilers.antt =====
-- atomixc on a small program, and its code on a machine.
use atomix_js.Prelude.{
  ℕ, zero, suc, ap, get_elem?, ◌+◌, ◌-◌, ◌≡◌, refl, true, false, none, some, [], ◌∷◌, Str, arith,
}
use atomix_js.Value.{JsValue, value_int, value_bool, value_string, value_is_falsy}
use atomix_js.Vm.{Vm, JsModule, update}
use atomix_js.Vm.Exec.{ret, room, need, lower, push, init_string, deref_module, load_slot}
use atomix_js.Execution.Calls.{Calls}
use atomix_js.Execution.Locals.{inst_ld_string, load_str, take_top}
use atomix_js.Format.{string_table_load_str, element, string_length, bytes_at, c_string}
use atomix_js.Prelude.Result.{ok, fault}
use atomix_js.Prelude.Word.{sub64}
use atomix_js.Execution.Stack
use atomix_js.Execution.Run.{calls, run_instruction, inst_set, module_loop}
use atomix_js.Execution.Steps.{at, Tests}
use atomix_js.Core.{core_natives}
use atomix_js.Compiler.Meaning.{Named, Effect, Evaluates, leave}
use atomix_js.Compiler.Correct.Run.{loaded, begin_pipe-module_loop}
use mathlib.Core.Path.{subst, sym}
use mathlib.Core.Option.{some-injective}
use atomix_js.Vm.Succeeds.{Succeeds-run}
use atomix_js.Loader.Bytes.{Buffer}
use atomix_js.Loader.Code.{shape}
use atomix_js.Loader.Files.{LoadResult, unknown_load_from_buffer}
use atomix_js.Loader.Trip.Bundle.{unknown_load_from_buffer-write_module}
use atomix_js.Loader.Trip.Code.{OperandsFit}
use atomix_js.Loader.Trip.Data.{AllFit}
use atomix_js.Loader.Trip.Holds.{Holds, Holds-self}
use atomix_js.Loader.Trip.Module.{IsWritable}
use atomix_js.Loader.Trip.Table.{HasNoNul}
use atomix_js.Loader.Write.{
  concat, data_length, data_start, operands_size, stable_length, write_module,
}
use atomix_js.Compiler.Growth.{IsContext}
use atomix_js.Compiler.Implements.{AllShaped}
use atomix_js.Compiler.Write.{write_module_format}
use atomix_js.Compiler.Write.Sections.{module_format}
use atomix_js.Compiler.Correct.Sections.{
  code_length, begin_pipe-IsFinished, begin_pipe-write_module_format,
}
use atomix_js.Compiler.Correct.File.{compile-load-module_loop}
use atomix_js.Tests.Files.{memory}
use atomix_js.Tests.Machines.{code, host, machine}
use atomix_js.Instruction.{Opcode}
use atomix_js.Compiler.Syntax.{AssignmentOperator, BinaryOperator, Node, Nodes}
use atomix_js.Compiler.Accepts.{compiles}
use atomix_js.Compiler.Accepts.Exact.{is_done, begin_pipe-compiles}
use atomix_js.Compiler.Sections.{constant_integer, constant_short, Instruction}
use atomix_js.Compiler.Emit.{Numbers, PipeContext, done, emit_with, replace, register}
use atomix_js.Compiler.Pipe.{begin_pipe}

-- Doubles are counted in whole numbers here.
abbrev numbers : Numbers
numbers = record { is_whole = λ n. true; to_int32 = λ n. n; to_string = λ n. n ∷ [] }

abbrev statement : Node → Node
statement e = Node.expression_statement e

-- `"a"; while (false) null; if (true) 5; else 7;`
abbrev sample_tree : Node
sample_tree = Node.program (
    Nodes.cons (statement (Node.string_literal (b'a' ∷ []))) (
      Nodes.cons (Node.while_statement (Node.boolean_literal false) (statement Node.null_literal)) (
        Nodes.cons
          (Node.if_statement (Node.boolean_literal true) (statement (Node.numeric_literal 5))
            (statement (Node.numeric_literal 7)))
          Nodes.nil)))

abbrev short : Opcode → ℕ → Instruction
short o x = record { opcode = o; operands = constant_short x ∷ [] }

abbrev plain : Opcode → Instruction
plain o = record { opcode = o; operands = [] }

abbrev int : ℕ → Instruction
int x = record { opcode = Opcode.op_ld_int; operands = constant_integer x ∷ [] }

abbrev sample_sections : PipeContext
sample_sections = record {
  stable = record { length = 13; count = 1; offsets = 0 ∷ []; strings = (b'a' ∷ []) ∷ [] };
  data_section = record {
    length = 40;
    count = 14;
    instructions =
        short Opcode.op_ld_string 0
        ∷ plain Opcode.op_pop
        ∷ plain Opcode.op_ld_false
        ∷ short Opcode.op_jmp_f 7
        ∷ plain Opcode.op_ld_null
        ∷ plain Opcode.op_pop
        ∷ short Opcode.op_jmp 2
        ∷ plain Opcode.op_ld_true
        ∷ short Opcode.op_jmp_f 12
        ∷ int 5
        ∷ plain Opcode.op_pop
        ∷ short Opcode.op_jmp 14
        ∷ int 7
        ∷ plain Opcode.op_pop
        ∷ [];
  };
}

sample_compiles : begin_pipe numbers sample_tree ≡ done tt sample_sections
unfolding begin_pipe emit_with replace register
sample_compiles = refl

-- The module that the loader makes of it.
abbrev compiled : JsModule
compiled = record code {
  string_table = record { length = 13; count = 1; offsets = 0 ∷ []; strings = b'a' ∷ [] };
  count = 14;
  instructions = loaded sample_sections.data_section.instructions;
}

abbrev sample_calls : Calls
sample_calls = calls host (core_natives host) 2

abbrev pushed : JsValue → Vm → Vm
pushed v vm = record vm {
  stats = record vm.stats {
    stack_counter = vm.stats.stack_counter + 1;
    stack = update vm.stats.stack vm.stats.stack_counter v;
  };
}

abbrev popped : Vm → Vm
popped vm = record vm { stats = record vm.stats { stack_counter = vm.stats.stack_counter - 1 } }

-- What the program means on a machine with a module.
module _ (m : JsModule) where
  abbrev at_compiled : Vm
  at_compiled = record (machine []) { heap = record (machine []).heap { modules = λ p. some m } }

  -- The machine with a copy of "a" in its heap.
  abbrev copied : Vm
  copied = record at_compiled {
    heap = record at_compiled.heap {
      allocs = 1;
      strings = update at_compiled.heap.strings 100 (some (b'a' ∷ []));
    };
  }

  -- The machine behind each statement.
  abbrev text_gone : Vm
  text_gone = popped (pushed (value_string 100) copied)

  abbrev loop_left : Vm
  loop_left = popped (pushed (value_bool false) text_gone)

  abbrev branch_taken : Vm
  branch_taken = popped (pushed (value_bool true) loop_left)

  abbrev five_gone : Vm
  five_gone = popped (pushed (value_int 5) branch_taken)

  text_loads :
      Named host sample_calls m Opcode.op_ld_string
        (b'a' ∷ [])
        at_compiled
        (pushed (value_string 100) copied)
  unfolding run_instruction inst_set inst_ld_string room load_str deref_module init_string push
  text_loads idx e = record { here = refl; does = λ k. rw e refl }

  loads_false :
      Effect host sample_calls m Opcode.op_ld_false 0 text_gone
        (pushed (value_bool false) text_gone)
  unfolding run_instruction inst_set Stack.inst_ld_boolean Stack.is_ld_true room push
  loads_false = record { here = refl; does = λ k. refl }

  loads_true :
      Effect host sample_calls m Opcode.op_ld_true 0 loop_left (pushed (value_bool true) loop_left)
  unfolding run_instruction inst_set Stack.inst_ld_boolean Stack.is_ld_true room push
  loads_true = record { here = refl; does = λ k. refl }

  loads_five :
      Effect host sample_calls m Opcode.op_ld_int 5 branch_taken (pushed (value_int 5) branch_taken)
  unfolding run_instruction inst_set Stack.inst_ld_int room push
  loads_five = record { here = refl; does = λ k. refl }

  pops_text :
      Effect host sample_calls m Opcode.op_pop 0 (pushed (value_string 100) copied) text_gone
  unfolding run_instruction inst_set Stack.inst_pop need lower sub64
  pops_text = record { here = refl; does = λ k. refl }

  pops_five :
      Effect host sample_calls m Opcode.op_pop 0 (pushed (value_int 5) branch_taken) five_gone
  unfolding run_instruction inst_set Stack.inst_pop need lower sub64
  pops_five = record { here = refl; does = λ k. refl }

  leaves_loop : Tests host sample_calls m true (pushed (value_bool false) text_gone) loop_left
  unfolding take_top load_slot sub64 value_is_falsy value_bool
  leaves_loop = record { here = refl; tests = λ k. refl }

  takes_branch : Tests host sample_calls m false (pushed (value_bool true) loop_left) branch_taken
  unfolding take_top load_slot sub64 value_is_falsy value_bool
  takes_branch = record { here = refl; tests = λ k. refl }

  sample_means : Evaluates host sample_calls m numbers sample_tree at_compiled five_gone
  unfolding Evaluates
  sample_means = (
    text_gone,
    (pushed (value_string 100) copied, text_loads, pops_text),
    (
      text_gone,
      refl,
      (
        loop_left,
        leave loads_false leaves_loop,
        (
          loop_left,
          refl,
          (
            five_gone,
            record {
              tested = pushed (value_bool true) loop_left;
              test_is = loads_true;
              is_falsy = false;
              chosen = branch_taken;
              chooses = takes_branch;
              ends = ((pushed (value_int 5) branch_taken, loads_five, pops_five), refl);
            },
            (five_gone, refl, refl),
          ),
        ),
      ),
    ),
  )

sample_listed :
    (idx : ℕ) (s : Str)
    → get_elem? sample_sections.stable.strings idx ≡ some s
    → string_table_load_str compiled.string_table idx ≡ ok s
unfolding string_table_load_str element string_length bytes_at c_string
sample_listed zero s e = ap (λ o. elim o [ none ↦ fault | some t ↦ ok t ]) e
sample_listed (suc idx) s e = absurd (cc)

begin_pipe-module_loop_example :
    (fuel : ℕ) × (module_loop host fuel sample_calls (at 0 (at_compiled compiled))
      ≡ ret tt (at 14 (five_gone compiled)))
begin_pipe-module_loop_example =
    begin_pipe-module_loop host sample_calls compiled numbers sample_tree sample_sections
      (at_compiled compiled) (five_gone compiled) sample_compiles refl refl sample_listed
      (sample_means compiled) refl

begin_pipe-compiles_example : is_done (begin_pipe numbers sample_tree) ≡ compiles sample_tree
begin_pipe-compiles_example = begin_pipe-compiles numbers sample_tree

-- `"a" += 1`, which the transformation should have replaced.
compound_refused :
    is_done (
      begin_pipe numbers (
        statement (
          Node.assignment_expression
            (AssignmentOperator.assign_with BinaryOperator.plus)
            (Node.string_literal (b'a' ∷ []))
            (Node.numeric_literal 1))))
    ≡ false
unfolding is_done begin_pipe
compound_refused = refl

begin_pipe-IsFinished_example :
    IsContext sample_sections
    × AllShaped sample_sections.data_section.instructions
    × (40 ≡ 8 + code_length sample_sections.data_section.instructions)
begin_pipe-IsFinished_example =
    begin_pipe-IsFinished numbers sample_tree sample_sections sample_compiles

begin_pipe-write_module_format_example :
    write_module_format 7 9 sample_sections.stable sample_sections.data_section
    ≡ write_module (module_format 7 9 sample_sections)
begin_pipe-write_module_format_example =
    begin_pipe-write_module_format numbers sample_tree sample_sections sample_compiles 7 9

sample_fits : IsWritable (module_format 7 9 sample_sections)
unfolding data_start stable_length concat data_length operands_size shape AllFit OperandsFit
sample_fits = record {
  low_fits = omega arith;
  high_fits = omega arith;
  data_start_fits = omega arith;
  count_fits = omega arith;
  length_fits = omega arith;
  operands_fit = omega arith;
}

sample_clean : (i : ℕ) (s : Str) → get_elem? sample_sections.stable.strings i ≡ some s → HasNoNul s
sample_clean zero s e =
    subst HasNoNul (some-injective (b'a' ∷ []) s e) (unfold HasNoNul in (refl, tt))
sample_clean (suc i) s e = absurd (cc)

-- The file of the program, and what the loader makes of it.
abbrev sample_file : Buffer
sample_file = write_module_format 7 9 sample_sections.stable sample_sections.data_section

sample_loads :
    (r : LoadResult) × (w : Vm) × (unknown_load_from_buffer host sample_file 3 4 (machine [])
      ≡ ret r w)
    × ((m : JsModule) × (w.heap.modules 3 ≡ some m))
sample_loads =
    let held : Holds sample_file 0 (write_module (module_format 7 9 sample_sections)) =
      subst (λ b. Holds b 0 (write_module (module_format 7 9 sample_sections)))
        (sym begin_pipe-write_module_format_example)
        (Holds-self (write_module (module_format 7 9 sample_sections))) in
    let r = Succeeds-run (
      unknown_load_from_buffer-write_module host memory sample_file
        (module_format 7 9 sample_sections) 3 4 (machine []) sample_fits held) in
    (r.0, r.1, r.2, (_, ((r.3).1).1.1))

compile-load-module_loop_example :
    (fuel : ℕ) × (module_loop host fuel sample_calls (at 0 (at_compiled (sample_loads.3).0))
      ≡ ret tt (at ((sample_loads.3).0).count (five_gone (sample_loads.3).0)))
compile-load-module_loop_example =
    compile-load-module_loop host sample_calls numbers memory sample_tree sample_sections 7 9 3 4
      (machine []) sample_loads.1 sample_loads.0 (sample_loads.3).0 (at_compiled (sample_loads.3).0)
      (five_gone (sample_loads.3).0) sample_compiles sample_fits sample_clean sample_loads.2
      (sample_loads.3).1 (sample_means (sample_loads.3).0) refl
