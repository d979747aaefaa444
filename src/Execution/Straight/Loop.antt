-- ===== src/Execution/Straight/Loop.antt =====
-- How far the loop of `vm_exec_module` runs straight code.
use atomix_js.Prelude.{
  ℕ, zero, suc, ◌+◌, ◌≤◌, ◌<◌, ◌≡◌, refl, ap, ◌∙◌, Bool, true, false, Option, none, some, List, [],
  ◌∷◌, length, get_elem?, get_elem?-some-lt, drop, arith, ltb, leb,
}
use mathlib.Core.Path.{subst}
use mathlib.Core.Option.{some-injective}
use atomix_js.Format.Element.{element_lem}
use atomix_js.Value.{JsValue, value_bool}
use atomix_js.Instruction.{Inst, Opcode}
use atomix_js.Vm.{Vm, JsModule, stack_size}
use atomix_js.Vm.Exec.{Host, Exec, pure, ret, deref_module, push, room, ◌>>◌}
use atomix_js.Execution.Calls.{Calls}
use atomix_js.Execution.Run.{vm_exec, run_instruction, inst_set, module_loop}
use atomix_js.Execution.Stack.{
  inst_nop, inst_ld_int, inst_ld_double, inst_ld_undf, inst_ld_null, inst_ld_boolean, is_ld_true,
}
use atomix_js.Execution.Straight.{
  meaning_of, meaning, IsStraight, ended, next, put, moved, ran, drop-cons, drop_all,
  straight_length, ran_counter, put_here, put_rest, put_room,
}

none_is_not_some : {A : Type 0} (a : A) → Path (Option A) none (some a) → ⊥
none_is_not_some a e = absurd (let b = ap code_of e in omega arith)
  where
    code_of : {A : Type 0} → Option A → ℕ
    code_of none = 0
    code_of (some a) = 1

room-push :
    (v : JsValue) (vm : Vm)
    → vm.stats.stack_counter < stack_size
    → (room >> push v) vm ≡ ret tt (put (some v) vm)
unfolding room push put
room-push v vm fits = ground arith

put-none : (o : Option JsValue) (vm : Vm) → some none ≡ some o → ret tt vm ≡ ret tt (put o vm)
unfolding put
put-none o vm is = subst (λ p. ret tt vm ≡ ret tt (put p vm)) (some-injective none o is) refl

push-some :
    (v : JsValue) (o : Option JsValue) (vm : Vm)
    → vm.stats.stack_counter < stack_size
    → some (some v) ≡ some o
    → (room >> push v) vm ≡ ret tt (put o vm)
push-some v o vm fits is =
    subst (λ p. (room >> push v) vm ≡ ret tt (put p vm)) (some-injective (some v) o is)
      (room-push v vm fits)

module _ {A : Type 0} (m n : Exec A) (b : Bool) (vm : Vm) where
  pub chosen_true : b ≡ true → (elim b as (λ _. Exec A) [ false ↦ n | true ↦ m ]) vm ≡ m vm
  chosen_true e = rw e refl

  pub chosen_false : b ≡ false → (elim b as (λ _. Exec A) [ false ↦ n | true ↦ m ]) vm ≡ n vm
  chosen_false e = rw e refl

module _ (h : Host) (c : Calls) where
  inst_set-meaning_of :
      (op : Opcode) (i : Inst) (o : Option JsValue) (vm : Vm)
      → i.opcode ≡ op
      → meaning_of op i ≡ some o
      → vm.stats.stack_counter < stack_size
      → inst_set h c op i vm ≡ ret tt (put o vm)
  unfolding inst_set meaning_of inst_nop inst_ld_int inst_ld_double inst_ld_undf inst_ld_null
      inst_ld_boolean is_ld_true
  inst_set-meaning_of Opcode.op_nop i o vm same is fits = put-none o vm is
  inst_set-meaning_of Opcode.op_ld_int i o vm same is fits = push-some _ o vm fits is
  inst_set-meaning_of Opcode.op_ld_double i o vm same is fits = push-some _ o vm fits is
  inst_set-meaning_of Opcode.op_ld_undf i o vm same is fits = push-some _ o vm fits is
  inst_set-meaning_of Opcode.op_ld_null i o vm same is fits = push-some _ o vm fits is
  inst_set-meaning_of Opcode.op_ld_true i o vm same is fits =
      rw (ap is_ld_true same) (push-some (value_bool true) o vm fits is)
  inst_set-meaning_of Opcode.op_ld_false i o vm same is fits =
      rw (ap is_ld_true same) (push-some (value_bool false) o vm fits is)
  inst_set-meaning_of _ i o vm same is fits = absurd (none_is_not_some o is)

  run_instruction-meaning :
      (x : Option Inst) (o : Option JsValue) (vm : Vm)
      → meaning x ≡ some o
      → vm.stats.stack_counter < stack_size
      → run_instruction h c x vm ≡ ret tt (put o vm)
  unfolding run_instruction meaning
  run_instruction-meaning none o vm is fits = put-none o vm is
  run_instruction-meaning (some i) o vm is fits = inst_set-meaning_of i.opcode i o vm refl is fits

  module _ (m : JsModule) (counted : length m.instructions ≡ m.count) where
    vm_exec_step :
        (x : Option Inst) (o : Option JsValue) (vm : Vm)
        → vm.heap.modules vm.current ≡ some m
        → get_elem? m.instructions vm.stats.instruction_counter ≡ some x
        → meaning x ≡ some o
        → vm.stats.stack_counter < stack_size
        → vm_exec h c vm ≡ ret tt (put o (moved vm))
    unfolding vm_exec deref_module
    vm_exec_step x o vm here at is fits =
        let below = get_elem?-some-lt m.instructions vm.stats.instruction_counter x at in
        rw
          (
            here,
            not_beyond (omega arith),
            element_lem m.instructions vm.stats.instruction_counter x at,
            run_instruction-meaning x o (moved vm) is fits,
          )
          refl
      where
        not_beyond :
            vm.stats.instruction_counter < m.count
            → leb m.count vm.stats.instruction_counter ≡ false
        not_beyond b = ground arith

    loop-ran :
        (xs : List (Option Inst)) (os : List (Option JsValue)) (fuel : ℕ) (vm : Vm)
        → IsStraight xs os
        → drop vm.stats.instruction_counter m.instructions ≡ xs
        → vm.heap.modules vm.current ≡ some m
        → vm.stats.stack_counter + length os ≤ stack_size
        → length os < fuel
        → module_loop h fuel c vm ≡ ret tt (ran os vm)
    unfolding module_loop deref_module ran
    loop-ran xs os zero vm straight rest here room_left enough = absurd (omega arith)
    loop-ran [] (o ∷ os) (suc fuel) vm straight rest here room_left enough = elim straight [ ]
    loop-ran (x ∷ xs) [] (suc fuel) vm straight rest here room_left enough = elim straight [ ]
    loop-ran [] [] (suc fuel) vm ended rest here room_left enough = rw here (
        chosen_false (vm_exec h c >> module_loop h fuel c) (pure tt)
          (ltb vm.stats.instruction_counter m.count) vm
          (past (drop_all m.instructions vm.stats.instruction_counter rest)))
      where
        past :
            length m.instructions ≤ vm.stats.instruction_counter
            → ltb vm.stats.instruction_counter m.count ≡ false
        past b = ground arith
    loop-ran (x ∷ xs) (o ∷ os) (suc fuel) vm (next is straight) rest here room_left enough =
        let found = drop-cons m.instructions vm.stats.instruction_counter x xs rest in
        let below = get_elem?-some-lt m.instructions vm.stats.instruction_counter x found.0 in
        rw here (
          chosen_true (vm_exec h c >> module_loop h fuel c) (pure tt)
            (ltb vm.stats.instruction_counter m.count) vm (inside (omega arith))
          ∙ rw (vm_exec_step x o vm here found.0 is (omega arith)) (
              loop-ran xs os fuel (put o (moved vm)) straight
                (put_rest o vm m.instructions xs found.1) (put_here o vm here)
                (put_room o vm (length os) (omega arith)) (omega arith)))
      where
        inside :
            vm.stats.instruction_counter < m.count → ltb vm.stats.instruction_counter m.count ≡ true
        inside b = ground arith

    -- The loop of `vm_exec_module` runs straight code to its end: from its first instruction, with room
    -- on the stack for a value of each instruction and more fuel than there are instructions, it
    -- returns, with the values pushed in order, and the counter stands behind the last instruction.
    pub module_loop-ran :
        (os : List (Option JsValue)) (fuel : ℕ) (vm : Vm)
        → IsStraight m.instructions os
        → vm.stats.instruction_counter ≡ 0
        → vm.heap.modules vm.current ≡ some m
        → vm.stats.stack_counter + length os ≤ stack_size
        → length os < fuel
        → (module_loop h fuel c vm ≡ ret tt (ran os vm))
          × ((ran os vm).stats.instruction_counter ≡ m.count)
    module_loop-ran os fuel vm straight first here room_left enough =
        let end = ran_counter os vm in
        let same = straight_length m.instructions os straight in
        (
          loop-ran m.instructions os fuel vm straight (ap (λ n. drop n m.instructions) first) here
              room_left enough,
          omega arith,
        )
