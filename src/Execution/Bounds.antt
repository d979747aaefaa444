-- ===== src/Execution/Bounds.antt =====
-- The stack counter stays within the array, whatever instruction runs: the primitives.
pub mod Frames
pub mod Guards
pub mod Handlers
pub mod Invoke
pub mod Machine
pub mod Memory
use atomix_js.Prelude.{
  ℕ, zero, suc, ◌+◌, ◌-◌, ◌<◌, ◌≤◌, ◌≡◌, refl, Bool, true, false, inl, inr, Bool-cases, ltb, leb,
  if◌then◌else◌, arith,
}
use atomix_js.Prelude.Word.{sub64, sub64_lem, u64_mod}
use atomix_js.Value.{JsValue}
use atomix_js.Vm.{Vm, VmStats, Ptr, stack_size}
use atomix_js.Vm.Exec.{
  Exec, Outcome, ret, crashed, push, poke, peek, lower, need, room, load_slot, store_slot, then_run,
  set_scope, set_instruction_counter, stack_counter, set_stack_counter, get_vm,
}
use atomix_js.Vm.Keeps.{
  Ends, Keeps, IsBlind, keeps_rules, Ends-bind, Ends-then, Ends-if, returned, by_panic, by_crash,
}
use atomix_js.Execution.Locals.{take_top}
use atomix_js.Execution.Objects.{pop_value}

abbrev pub Fits : Vm → Type 0
Fits vm = vm.stats.stack_counter ≤ stack_size

pub Fits-IsBlind : IsBlind Fits
Fits-IsBlind = record { heap = λ vm h f. f; globals = λ vm g f. f }

-- A push that returns has found room, from whatever counter it started.
pub push-Ends : (v : JsValue) (vm : Vm) → Ends Fits (push v vm)
unfolding push
push-Ends v vm = elim (Bool-cases (ltb vm.stats.stack_counter stack_size)) [
  | inl y ↦ rw y (returned (ground arith))
  | inr n ↦ rw n by_crash
]

pub push-Fits : (v : JsValue) → Keeps Fits (push v)
push-Fits v vm f = push-Ends v vm

pub load_slot-Fits : (k : ℕ) → Keeps Fits (load_slot k)
unfolding load_slot
load_slot-Fits k vm f = elim (Bool-cases (ltb k stack_size)) [
  | inl y ↦ rw y (returned f)
  | inr n ↦ rw n by_crash
]

pub store_slot-Fits : (k : ℕ) (v : JsValue) → Keeps Fits (store_slot k v)
unfolding store_slot
store_slot-Fits k v vm f = elim (Bool-cases (ltb k stack_size)) [
  | inl y ↦ rw y (returned f)
  | inr n ↦ rw n by_crash
]

pub poke-Fits : (k : ℕ) (v : JsValue) → Keeps Fits (poke k v)
unfolding poke
poke-Fits k v vm f = store_slot-Fits _ v vm f

pub peek-Fits : (k : ℕ) → Keeps Fits (peek k)
unfolding peek
peek-Fits k vm f = load_slot-Fits _ vm f

-- A stack that fits with `k` values at least.
abbrev pub Holds : ℕ → Vm → Type 0
Holds k vm = (k ≤ vm.stats.stack_counter) × (vm.stats.stack_counter ≤ stack_size)

pub need-Holds : (k : ℕ) (vm : Vm) → Fits vm → Ends (Holds k) (need k vm)
unfolding need
need-Holds k vm f = elim (Bool-cases (ltb vm.stats.stack_counter k)) [
  | inl y ↦ rw y by_panic
  | inr n ↦ rw n (returned (ground arith, f))
]

pub Holds-Fits : (k : ℕ) (vm : Vm) → Holds k vm → Fits vm
Holds-Fits k vm holds = holds.1

-- A step down counts on a value: at zero the counter would wrap.
pub lower-Holds : (k : ℕ) (vm : Vm) → Holds (k + 1) vm → Ends (Holds k) (lower vm)
unfolding lower
lower-Holds k vm holds =
    let e = sub64_lem vm.stats.stack_counter 1 (omega arith) (omega arith) in
    returned (omega arith, omega arith)

module _ {B : Type 0} (vm : Vm) where
  pub need-step :
      {k : ℕ} {f : Unit {0} → Exec B}
      → Fits vm
      → ((a : Unit {0}) (w : Vm) → Holds k w → Ends Fits (f a w))
      → Ends Fits (then_run (need k vm) f)
  need-step {k} fits rest = Ends-then (need-Holds k vm fits) rest

  pub lower-step_two :
      {f : Unit {0} → Exec B}
      → Holds 2 vm
      → ((a : Unit {0}) (w : Vm) → Fits w → Ends Fits (f a w))
      → Ends Fits (then_run (lower vm) f)
  lower-step_two holds rest = Ends-then (lower-Holds 1 vm holds) λ a w p. rest a w p.1

  pub lower-step_one :
      {f : Unit {0} → Exec B}
      → Holds 1 vm
      → ((a : Unit {0}) (w : Vm) → Fits w → Ends Fits (f a w))
      → Ends Fits (then_run (lower vm) f)
  lower-step_one holds rest = Ends-then (lower-Holds 0 vm holds) λ a w p. rest a w p.1

  pub peek-step :
      {k : ℕ} {f : JsValue → Exec B} (i : ℕ)
      → Holds k vm
      → ((a : JsValue) (w : Vm) → Holds k w → Ends Fits (f a w))
      → Ends Fits (then_run (peek i vm) f)
  unfolding peek load_slot
  peek-step {k} {f} i holds rest =
      elim (Bool-cases (ltb (sub64 vm.stats.stack_counter i) stack_size)) [
        | inl y ↦ rw y (rest _ vm holds)
        | inr n ↦ rw n by_crash
      ]

  pub if-step :
      {k : ℕ} {m n : Exec B} (b : Bool)
      → ((w : Vm) → Holds k w → Ends Fits (m w))
      → ((w : Vm) → Holds k w → Ends Fits (n w))
      → Holds k vm
      → Ends Fits ((if b then m else n) vm)
  if-step true p q holds = p vm holds
  if-step false p q holds = q vm holds

-- The rules of a handler that steps down behind its guard.
pub ruleset steps_rules =
    (need-step, peek-step, lower-step_two, lower-step_one, if-step, Holds-Fits)

pub need-Fits : (k : ℕ) → Keeps Fits (need k)
unfolding need
need-Fits k vm f = elim (Bool-cases (ltb vm.stats.stack_counter k)) [
  | inl y ↦ rw y by_panic
  | inr n ↦ rw n (returned f)
]

pub room-Fits : Keeps Fits room
unfolding room
room-Fits vm f = elim (Bool-cases (leb stack_size vm.stats.stack_counter)) [
  | inl y ↦ rw y by_panic
  | inr n ↦ rw n (returned f)
]

pub set_scope-Fits : (s : Ptr) → Keeps Fits (set_scope s)
set_scope-Fits s vm f = returned f

pub set_instruction_counter-Fits : (n : ℕ) → Keeps Fits (set_instruction_counter n)
set_instruction_counter-Fits n vm f = returned f

-- With an empty stack `take_top` reads outside the array.
pub take_top-Fits : Keeps Fits take_top
unfolding take_top load_slot sub64
take_top-Fits vm f = elim (Bool-cases (ltb (sub64 vm.stats.stack_counter 1) stack_size)) [
  | inl y ↦ rw y (returned (ground arith))
  | inr n ↦ rw n by_crash
]

-- With an empty stack it reads outside the array.
pub pop_value-Fits : Keeps Fits pop_value
unfolding pop_value peek load_slot lower sub64
pop_value-Fits vm f = elim (Bool-cases (ltb (sub64 vm.stats.stack_counter 1) stack_size)) [
  | inl y ↦ rw y (returned (ground arith))
  | inr n ↦ rw n by_crash
]

pub ruleset fits_rules = (
  keeps_rules, push-Fits, load_slot-Fits, store_slot-Fits, poke-Fits, peek-Fits, need-Fits,
  room-Fits, set_scope-Fits, set_instruction_counter-Fits, take_top-Fits, pop_value-Fits,
)
