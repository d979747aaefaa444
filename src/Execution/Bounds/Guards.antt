-- ===== src/Execution/Bounds/Guards.antt =====
-- The instructions that work on the stack alone: their guards keep them from every access outside it.
use atomix_js.Prelude.{
  ℕ, ◌+◌, ◌≤◌, ◌≡◌, refl, Bool, true, false, ◌&&◌, inl, inr, Bool-cases, Option, none, some, ltb,
  leb, if◌then◌else◌, arith,
}
use atomix_js.Prelude.Result.{Message}
use atomix_js.Prelude.Word.{sub64}
use atomix_js.Value.{JsValue, Platform}
use atomix_js.Instruction.{Inst, Opcode}
use atomix_js.Vm.{Vm, stack_size}
use atomix_js.Vm.Exec.{
  Exec, Outcome, ret, panicked, then_run, Host, push, poke, peek, lower, need, room, load_slot,
  store_slot,
}
use atomix_js.Execution.Calls.{Calls}
use atomix_js.Execution.Run.{inst_set}
use atomix_js.Execution.Stack
use atomix_js.Execution.Arith
use atomix_js.Execution.Bits
use atomix_js.Execution.Compare
use atomix_js.Execution.Compare.{falsy}
use atomix_js.Execution.Bounds.{Fits, Holds}

-- The run returns with a stack that fits, or it ends by a PANIC of the handler: it neither reads nor
-- writes outside the array, nor ends in any other undefined behaviour.
pub data IsGuarded {A : Type 0} : Outcome A → Type 0 where
  returns : {a : A} {vm : Vm} → Fits vm → IsGuarded (ret a vm)
  panics : {m : Message} → IsGuarded (panicked m)

-- The instructions that touch the stack only, less `%` and the shifts, which are undefined on some
-- operands.
unfoldable pub works_on_stack : Opcode → Bool
works_on_stack Opcode.op_nop = true
works_on_stack Opcode.op_ld_int = true
works_on_stack Opcode.op_ld_double = true
works_on_stack Opcode.op_ld_undf = true
works_on_stack Opcode.op_ld_null = true
works_on_stack Opcode.op_ld_true = true
works_on_stack Opcode.op_ld_false = true
works_on_stack Opcode.op_add = true
works_on_stack Opcode.op_minus = true
works_on_stack Opcode.op_mul = true
works_on_stack Opcode.op_div = true
works_on_stack Opcode.op_negate = true
works_on_stack Opcode.op_binary_and = true
works_on_stack Opcode.op_binary_or = true
works_on_stack Opcode.op_binary_xor = true
works_on_stack Opcode.op_binary_not = true
works_on_stack Opcode.op_not = true
works_on_stack Opcode.op_teq = true
works_on_stack Opcode.op_nteq = true
works_on_stack Opcode.op_gt = true
works_on_stack Opcode.op_geq = true
works_on_stack Opcode.op_lt = true
works_on_stack Opcode.op_leq = true
works_on_stack Opcode.op_pop = true
works_on_stack Opcode.op_dup = true
works_on_stack Opcode.op_swap = true
works_on_stack _ = false

module _ {B : Type 0} (vm : Vm) where
  need-guards :
      {k : ℕ} {f : Unit {0} → Exec B}
      → Fits vm
      → ((a : Unit {0}) (w : Vm) → Holds k w → IsGuarded (f a w))
      → IsGuarded (then_run (need k vm) f)
  unfolding need
  need-guards {k} {f} fits rest = elim (Bool-cases (ltb vm.stats.stack_counter k)) [
    | inl y ↦ rw y panics
    | inr n ↦ rw n (rest tt vm (ground arith, fits))
  ]

  peek-guards :
      {k : ℕ} {f : JsValue → Exec B} (i : ℕ)
      → Holds k vm
      → ltb 0 i && leb i k ≡ true
      → ((v : JsValue) (w : Vm) → Holds k w → IsGuarded (f v w))
      → IsGuarded (then_run (peek i vm) f)
  unfolding peek load_slot sub64
  peek-guards {k} {f} i holds inside rest =
      let e : ltb (sub64 vm.stats.stack_counter i) stack_size ≡ true = ground arith in
      rw e (rest _ vm holds)

  if-guards :
      {k : ℕ} {m n : Exec B} (b : Bool)
      → Holds k vm
      → ((w : Vm) → Holds k w → IsGuarded (m w))
      → ((w : Vm) → Holds k w → IsGuarded (n w))
      → IsGuarded ((if b then m else n) vm)
  if-guards true holds p q = p vm holds
  if-guards false holds p q = q vm holds

  lower-guards :
      {f : Unit {0} → Exec B}
      → Holds 2 vm
      → ((a : Unit {0}) (w : Vm) → Holds 1 w → IsGuarded (f a w))
      → IsGuarded (then_run (lower vm) f)
  unfolding lower sub64
  lower-guards holds rest = rest tt _ (omega arith, omega arith)

poke-guards :
    {k : ℕ} (i : ℕ) (v : JsValue) (vm : Vm)
    → Holds k vm
    → ltb 0 i && leb i k ≡ true
    → IsGuarded (poke i v vm)
unfolding poke store_slot sub64
poke-guards {k} i v vm holds inside =
    let e : ltb (sub64 vm.stats.stack_counter i) stack_size ≡ true = ground arith in
    rw e (returns holds.1)

poke-step :
    {B : Type 0} {k : ℕ} {f : Unit {0} → Exec B} (i : ℕ) (v : JsValue) (vm : Vm)
    → Holds k vm
    → ltb 0 i && leb i k ≡ true
    → ((a : Unit {0}) (w : Vm) → Holds k w → IsGuarded (f a w))
    → IsGuarded (then_run (poke i v vm) f)
unfolding poke store_slot sub64
poke-step {k} i v vm holds inside rest =
    let e : ltb (sub64 vm.stats.stack_counter i) stack_size ≡ true = ground arith in
    rw e (rest tt _ holds)

falsy-guards :
    {B : Type 0} {k : ℕ} {f : Bool → Exec B} (o : Option Bool) (vm : Vm)
    → Holds k vm
    → ((b : Bool) (w : Vm) → Holds k w → IsGuarded (f b w))
    → IsGuarded (then_run (falsy o vm) f)
falsy-guards none vm holds rest = panics
falsy-guards (some b) vm holds rest = rest b vm holds

ruleset guard_rules =
    (need-guards, peek-guards, if-guards, lower-guards, poke-guards, falsy-guards, panics, refl)

-- A constant, behind the guard of its handler.
room-IsGuarded : (v : JsValue) (vm : Vm) → Fits vm → IsGuarded (then_run (room vm) λ u. push v)
unfolding room push store_slot
room-IsGuarded v vm f = elim (Bool-cases (leb stack_size vm.stats.stack_counter)) [
  | inl y ↦ rw y panics
  | inr n ↦
      let e : ltb vm.stats.stack_counter stack_size ≡ true = ground arith in
      rw (n, e) (returns (ground arith))
]

module _ (p : Platform) (i : Inst) (vm : Vm) (f : Fits vm) where
  inst_add-IsGuarded : IsGuarded (Arith.inst_add p i vm)
  unfolding Arith.inst_add
  inst_add-IsGuarded = search (guard_rules) depth 30 fits 8000

  inst_minus-IsGuarded : IsGuarded (Arith.inst_minus p i vm)
  unfolding Arith.inst_minus
  inst_minus-IsGuarded = search (guard_rules) depth 30 fits 8000

  inst_mul-IsGuarded : IsGuarded (Arith.inst_mul p i vm)
  unfolding Arith.inst_mul
  inst_mul-IsGuarded = search (guard_rules) depth 30 fits 8000

  inst_div-IsGuarded : IsGuarded (Arith.inst_div p i vm)
  unfolding Arith.inst_div
  inst_div-IsGuarded = search (guard_rules) depth 30 fits 8000

  inst_negate-IsGuarded : IsGuarded (Arith.inst_negate p i vm)
  unfolding Arith.inst_negate
  inst_negate-IsGuarded = search (guard_rules) depth 30 fits 8000

  inst_binary_and-IsGuarded : IsGuarded (Bits.inst_binary_and p i vm)
  unfolding Bits.inst_binary_and
  inst_binary_and-IsGuarded = search (guard_rules) depth 30 fits 8000

  inst_binary_or-IsGuarded : IsGuarded (Bits.inst_binary_or p i vm)
  unfolding Bits.inst_binary_or
  inst_binary_or-IsGuarded = search (guard_rules) depth 30 fits 8000

  inst_binary_xor-IsGuarded : IsGuarded (Bits.inst_binary_xor p i vm)
  unfolding Bits.inst_binary_xor
  inst_binary_xor-IsGuarded = search (guard_rules) depth 30 fits 8000

  inst_binary_not-IsGuarded : IsGuarded (Bits.inst_binary_not p i vm)
  unfolding Bits.inst_binary_not
  inst_binary_not-IsGuarded = search (guard_rules) depth 30 fits 8000

  inst_not-IsGuarded : IsGuarded (Compare.inst_not p i vm)
  unfolding Compare.inst_not
  inst_not-IsGuarded = search (guard_rules) depth 30 fits 8000

  inst_teq-IsGuarded : IsGuarded (Compare.inst_teq p i vm)
  unfolding Compare.inst_teq
  inst_teq-IsGuarded = search (guard_rules) depth 30 fits 8000

  inst_nteq-IsGuarded : IsGuarded (Compare.inst_nteq p i vm)
  unfolding Compare.inst_nteq
  inst_nteq-IsGuarded = search (guard_rules) depth 30 fits 8000

  inst_gt-IsGuarded : IsGuarded (Compare.inst_gt p i vm)
  unfolding Compare.inst_gt
  inst_gt-IsGuarded = search (guard_rules) depth 30 fits 8000

  inst_geq-IsGuarded : IsGuarded (Compare.inst_geq p i vm)
  unfolding Compare.inst_geq
  inst_geq-IsGuarded = search (guard_rules) depth 30 fits 8000

  inst_lt-IsGuarded : IsGuarded (Compare.inst_lt p i vm)
  unfolding Compare.inst_lt
  inst_lt-IsGuarded = search (guard_rules) depth 30 fits 8000

  inst_leq-IsGuarded : IsGuarded (Compare.inst_leq p i vm)
  unfolding Compare.inst_leq
  inst_leq-IsGuarded = search (guard_rules) depth 30 fits 8000

module _ (i : Inst) (vm : Vm) (f : Fits vm) where
  inst_pop-IsGuarded : IsGuarded (Stack.inst_pop i vm)
  unfolding Stack.inst_pop need lower sub64
  inst_pop-IsGuarded = elim (Bool-cases (ltb vm.stats.stack_counter 1)) [
    | inl y ↦ rw y panics
    | inr n ↦ rw n (returns (ground arith))
  ]

  inst_swap-IsGuarded : IsGuarded (Stack.inst_swap i vm)
  unfolding Stack.inst_swap
  inst_swap-IsGuarded = search (guard_rules, poke-step) depth 30

  inst_dup-IsGuarded : IsGuarded (Stack.inst_dup i vm)
  unfolding Stack.inst_dup need room
  inst_dup-IsGuarded = elim (Bool-cases (ltb vm.stats.stack_counter 1)) [
    | inl y ↦ rw y panics
    | inr n ↦ elim (Bool-cases (leb stack_size vm.stats.stack_counter)) [
      | inl y ↦ rw (n, y) panics
      | inr r ↦
          let next = record vm {
            stats = record vm.stats { stack_counter = vm.stats.stack_counter + 1 };
          } in
          let holds : Holds 2 next = (ground arith, ground arith) in
          rw (n, r) (peek-guards next 2 holds refl λ v w kept. poke-guards 1 v w kept refl)
    ]
  ]

module _ (h : Host) (c : Calls) where
  -- From a stack that fits, each instruction that works on the stack alone (constants, `+`, `-`, `*`,
  -- `/`, the bit operators without the shifts, the comparisons, POP, DUP and SWAP) returns with a
  -- stack that fits or ends by the PANIC of its guard or of its operands: it never reads or writes
  -- outside the array, and the counter never wraps.
  pub inst_set-IsGuarded :
      (o : Opcode) (i : Inst) (vm : Vm)
      → works_on_stack o ≡ true
      → vm.stats.stack_counter ≤ stack_size
      → IsGuarded (inst_set h c o i vm)
  unfolding inst_set works_on_stack Stack.inst_nop Stack.inst_ld_int Stack.inst_ld_double
      Stack.inst_ld_undf Stack.inst_ld_null Stack.inst_ld_boolean
  inst_set-IsGuarded Opcode.op_nop i vm e f = returns f
  inst_set-IsGuarded Opcode.op_pop i vm e f = inst_pop-IsGuarded i vm f
  inst_set-IsGuarded Opcode.op_dup i vm e f = inst_dup-IsGuarded i vm f
  inst_set-IsGuarded Opcode.op_swap i vm e f = inst_swap-IsGuarded i vm f
  inst_set-IsGuarded Opcode.op_ld_int i vm e f = room-IsGuarded _ vm f
  inst_set-IsGuarded Opcode.op_ld_double i vm e f = room-IsGuarded _ vm f
  inst_set-IsGuarded Opcode.op_ld_undf i vm e f = room-IsGuarded _ vm f
  inst_set-IsGuarded Opcode.op_ld_null i vm e f = room-IsGuarded _ vm f
  inst_set-IsGuarded Opcode.op_ld_true i vm e f = room-IsGuarded _ vm f
  inst_set-IsGuarded Opcode.op_ld_false i vm e f = room-IsGuarded _ vm f
  inst_set-IsGuarded Opcode.op_add i vm e f = inst_add-IsGuarded h.platform i vm f
  inst_set-IsGuarded Opcode.op_minus i vm e f = inst_minus-IsGuarded h.platform i vm f
  inst_set-IsGuarded Opcode.op_mul i vm e f = inst_mul-IsGuarded h.platform i vm f
  inst_set-IsGuarded Opcode.op_div i vm e f = inst_div-IsGuarded h.platform i vm f
  inst_set-IsGuarded Opcode.op_negate i vm e f = inst_negate-IsGuarded h.platform i vm f
  inst_set-IsGuarded Opcode.op_binary_and i vm e f = inst_binary_and-IsGuarded h.platform i vm f
  inst_set-IsGuarded Opcode.op_binary_or i vm e f = inst_binary_or-IsGuarded h.platform i vm f
  inst_set-IsGuarded Opcode.op_binary_xor i vm e f = inst_binary_xor-IsGuarded h.platform i vm f
  inst_set-IsGuarded Opcode.op_binary_not i vm e f = inst_binary_not-IsGuarded h.platform i vm f
  inst_set-IsGuarded Opcode.op_not i vm e f = inst_not-IsGuarded h.platform i vm f
  inst_set-IsGuarded Opcode.op_teq i vm e f = inst_teq-IsGuarded h.platform i vm f
  inst_set-IsGuarded Opcode.op_nteq i vm e f = inst_nteq-IsGuarded h.platform i vm f
  inst_set-IsGuarded Opcode.op_gt i vm e f = inst_gt-IsGuarded h.platform i vm f
  inst_set-IsGuarded Opcode.op_geq i vm e f = inst_geq-IsGuarded h.platform i vm f
  inst_set-IsGuarded Opcode.op_lt i vm e f = inst_lt-IsGuarded h.platform i vm f
  inst_set-IsGuarded Opcode.op_leq i vm e f = inst_leq-IsGuarded h.platform i vm f
  inst_set-IsGuarded _ i vm e f = absurd (cc)
