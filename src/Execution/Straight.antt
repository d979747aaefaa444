-- ===== src/Execution/Straight.antt =====
-- Straight code: instructions that only load constants, and the machine that they leave.
pub mod Loop
use atomix_js.Prelude.{
  ℕ, zero, suc, ◌+◌, ◌≤◌, ◌<◌, ◌≡◌, refl, ap, ◌∙◌, Bool, true, false, Option, none, some, List, [],
  ◌∷◌, length, get_elem?, get_elem?-some-lt, drop, arith, ltb, leb, if◌then◌else◌,
}
use mathlib.Core.Path.{subst}
use mathlib.Core.Option.{some-injective}
use atomix_js.Format.Element.{element_lem}
use atomix_js.Format.{element}
use atomix_js.Prelude.Result.{ok}
use atomix_js.Value.{JsValue, value_int, value_double, value_undefined, value_null, value_bool}
use atomix_js.Instruction.{Inst, Opcode}
use atomix_js.Vm.{Vm, JsModule, update, stack_size}
use atomix_js.Vm.Exec.{Host, Exec, pure, ret, deref_module, push, room, ◌>>◌}
use atomix_js.Execution.Calls.{Calls}
use atomix_js.Execution.Run.{vm_exec, run_instruction, inst_set, module_loop}
use atomix_js.Execution.Stack.{
  inst_nop, inst_ld_int, inst_ld_double, inst_ld_undf, inst_ld_null, inst_ld_boolean, is_ld_true,
}

-- What an instruction of straight code pushes: `some none` is nothing, `none` other code.
unfoldable pub meaning_of : Opcode → Inst → Option (Option JsValue)
meaning_of Opcode.op_nop i = some none
meaning_of Opcode.op_ld_int i = some (some (value_int i.operand))
meaning_of Opcode.op_ld_double i = some (some (value_double i.operand))
meaning_of Opcode.op_ld_undf i = some (some value_undefined)
meaning_of Opcode.op_ld_null i = some (some value_null)
meaning_of Opcode.op_ld_true i = some (some (value_bool true))
meaning_of Opcode.op_ld_false i = some (some (value_bool false))
meaning_of _ i = none

unfoldable pub meaning : Option Inst → Option (Option JsValue)
meaning none = some none
meaning (some i) = meaning_of i.opcode i

-- The instructions are straight code that pushes these values.
pub data IsStraight : List (Option Inst) → List (Option JsValue) → Type 0 where
  ended : IsStraight [] []
  next :
      {x : Option Inst} {o : Option JsValue} {xs : List (Option Inst)} {os : List (Option JsValue)}
      → meaning x ≡ some o
      → IsStraight xs os
      → IsStraight (x ∷ xs) (o ∷ os)

-- The machine behind one push, or behind none.
unfoldable pub put : Option JsValue → Vm → Vm
put none vm = vm
put (some v) vm = record vm {
  stats = record vm.stats {
    stack_counter = vm.stats.stack_counter + 1;
    stack = update vm.stats.stack vm.stats.stack_counter v;
  };
}

abbrev pub moved : Vm → Vm
moved vm = record vm {
  stats = record vm.stats { instruction_counter = vm.stats.instruction_counter + 1 };
}

-- The machine behind straight code.
unfoldable pub ran : List (Option JsValue) → Vm → Vm
ran [] vm = vm
ran (o ∷ os) vm = ran os (put o (moved vm))

pub drop-cons :
    (l : List (Option Inst)) (k : ℕ) (x : Option Inst) (xs : List (Option Inst))
    → drop k l ≡ x ∷ xs
    → (get_elem? l k ≡ some x) × (drop (k + 1) l ≡ xs)
drop-cons [] zero x xs e = absurd (let l = ap length e in omega arith)
drop-cons [] (suc k) x xs e = absurd (let l = ap length e in omega arith)
drop-cons (y ∷ l) zero x xs e = (ap (λ l. get_elem? l 0) e, ap (drop 1) e)
drop-cons (y ∷ l) (suc k) x xs e =
    let r = drop-cons l k x xs e in (r.0, ap (λ n. drop n (y ∷ l)) (carried k) ∙ r.1)
  where
    carried : (n : ℕ) → suc n + 1 ≡ suc (n + 1)
    carried n = omega arith

pub drop_all : (l : List (Option Inst)) (k : ℕ) → drop k l ≡ [] → length l ≤ k
drop_all [] k e = omega arith
drop_all (y ∷ l) zero e = absurd (let l = ap length e in omega arith)
drop_all (y ∷ l) (suc k) e = let r = drop_all l k e in omega arith

pub straight_length :
    (xs : List (Option Inst)) (os : List (Option JsValue))
    → IsStraight xs os
    → length os ≡ length xs
straight_length [] [] ended = refl
straight_length [] (o ∷ os) straight = elim straight [ ]
straight_length (x ∷ xs) [] straight = elim straight [ ]
straight_length (x ∷ xs) (o ∷ os) (next is straight) = ap suc (straight_length xs os straight)

put_counter :
    (o : Option JsValue) (vm : Vm)
    → (put o vm).stats.instruction_counter ≡ vm.stats.instruction_counter
unfolding put
put_counter none vm = refl
put_counter (some v) vm = refl

pub ran_counter :
    (os : List (Option JsValue)) (vm : Vm)
    → (ran os vm).stats.instruction_counter ≡ vm.stats.instruction_counter + length os
unfolding ran
ran_counter [] vm = omega arith
ran_counter (o ∷ os) vm =
    let e = ran_counter os (put o (moved vm)) in let p = put_counter o (moved vm) in omega arith

pub put_here :
    (o : Option JsValue) (vm : Vm) {m : JsModule}
    → vm.heap.modules vm.current ≡ some m
    → (put o (moved vm)).heap.modules (put o (moved vm)).current ≡ some m
unfolding put
put_here none vm here = here
put_here (some v) vm here = here

pub put_rest :
    (o : Option JsValue) (vm : Vm) (l xs : List (Option Inst))
    → drop (vm.stats.instruction_counter + 1) l ≡ xs
    → drop (put o (moved vm)).stats.instruction_counter l ≡ xs
unfolding put
put_rest none vm l xs rest = rest
put_rest (some v) vm l xs rest = rest

pub put_room :
    (o : Option JsValue) (vm : Vm) (n : ℕ)
    → vm.stats.stack_counter + suc n ≤ stack_size
    → (put o (moved vm)).stats.stack_counter + n ≤ stack_size
unfolding put
put_room none vm n left = omega arith
put_room (some v) vm n left = omega arith
