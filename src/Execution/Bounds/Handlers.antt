-- ===== src/Execution/Bounds/Handlers.antt =====
-- Each handler that makes no call keeps the stack counter within the array.
use atomix_js.Prelude.{ℕ, ◌+◌, Bool, Option, none, some, inl, inr, Bool-cases, ltb, leb, arith}
use atomix_js.Value.{Platform}
use atomix_js.Instruction.{Inst}
use atomix_js.Vm.{Vm, stack_size}
use atomix_js.Vm.Keeps.{Keeps, returned, by_panic, Ends-bind, Ends-then, Ends-mono}
use atomix_js.Execution.Stack
use atomix_js.Execution.Arith
use atomix_js.Execution.Bits
use atomix_js.Execution.Compare
use atomix_js.Execution.Compare.{falsy}
use atomix_js.Execution.Bounds.{
  Fits, fits_rules, steps_rules, need-Holds, lower-Holds, peek-Fits, poke-Fits,
}

abbrev with_counter : Vm → ℕ → Vm
with_counter vm n = record vm { stats = record vm.stats { stack_counter = n } }

module _ (i : Inst) where
  pub inst_nop-Fits : Keeps Fits (Stack.inst_nop i)
  unfolding Stack.inst_nop
  inst_nop-Fits vm f = returned f

  pub inst_ld_int-Fits : Keeps Fits (Stack.inst_ld_int i)
  unfolding Stack.inst_ld_int
  inst_ld_int-Fits vm f = search (fits_rules) depth 20

  pub inst_ld_double-Fits : Keeps Fits (Stack.inst_ld_double i)
  unfolding Stack.inst_ld_double
  inst_ld_double-Fits vm f = search (fits_rules) depth 20

  pub inst_ld_undf-Fits : Keeps Fits (Stack.inst_ld_undf i)
  unfolding Stack.inst_ld_undf
  inst_ld_undf-Fits vm f = search (fits_rules) depth 20

  pub inst_ld_null-Fits : Keeps Fits (Stack.inst_ld_null i)
  unfolding Stack.inst_ld_null
  inst_ld_null-Fits vm f = search (fits_rules) depth 20

  pub inst_ld_boolean-Fits : Keeps Fits (Stack.inst_ld_boolean i)
  unfolding Stack.inst_ld_boolean
  inst_ld_boolean-Fits vm f = search (fits_rules) depth 20

  pub inst_pop-Fits : Keeps Fits (Stack.inst_pop i)
  unfolding Stack.inst_pop
  inst_pop-Fits vm f =
      Ends-then (need-Holds 1 vm f)
        λ a w holds. Ends-mono (lower-Holds 0 w holds) λ w1 fewer. fewer.1

  pub inst_dup-Fits : Keeps Fits (Stack.inst_dup i)
  unfolding Stack.inst_dup
  inst_dup-Fits vm f = elim (Bool-cases (ltb vm.stats.stack_counter 1)) [
    | inl y ↦ rw y by_panic
    | inr n ↦ elim (Bool-cases (leb stack_size vm.stats.stack_counter)) [
      | inl y ↦ rw (n, y) by_panic
      | inr r ↦
          rw (n, r)
            (Ends-bind (peek-Fits 2 (with_counter vm (vm.stats.stack_counter + 1)) (ground arith))
              (λ v. poke-Fits 1 v))
    ]
  ]

  pub inst_swap-Fits : Keeps Fits (Stack.inst_swap i)
  unfolding Stack.inst_swap
  inst_swap-Fits vm f = search (fits_rules) depth 20

pub falsy-Fits : (o : Option Bool) → Keeps Fits (falsy o)
falsy-Fits none vm f = by_panic
falsy-Fits (some b) vm f = returned f

module _ (p : Platform) (i : Inst) where
  pub inst_add-Fits : Keeps Fits (Arith.inst_add p i)
  unfolding Arith.inst_add
  inst_add-Fits vm f = search (steps_rules, fits_rules) depth 30

  pub inst_minus-Fits : Keeps Fits (Arith.inst_minus p i)
  unfolding Arith.inst_minus
  inst_minus-Fits vm f = search (steps_rules, fits_rules) depth 30

  pub inst_mul-Fits : Keeps Fits (Arith.inst_mul p i)
  unfolding Arith.inst_mul
  inst_mul-Fits vm f = search (steps_rules, fits_rules) depth 30

  pub inst_div-Fits : Keeps Fits (Arith.inst_div p i)
  unfolding Arith.inst_div
  inst_div-Fits vm f = search (steps_rules, fits_rules) depth 30

  pub inst_mod-Fits : Keeps Fits (Arith.inst_mod p i)
  unfolding Arith.inst_mod
  inst_mod-Fits vm f = search (steps_rules, fits_rules) depth 30

  pub inst_negate-Fits : Keeps Fits (Arith.inst_negate p i)
  unfolding Arith.inst_negate
  inst_negate-Fits vm f = search (fits_rules) depth 30

  pub inst_binary_and-Fits : Keeps Fits (Bits.inst_binary_and p i)
  unfolding Bits.inst_binary_and
  inst_binary_and-Fits vm f = search (steps_rules, fits_rules) depth 30

  pub inst_binary_or-Fits : Keeps Fits (Bits.inst_binary_or p i)
  unfolding Bits.inst_binary_or
  inst_binary_or-Fits vm f = search (steps_rules, fits_rules) depth 30

  pub inst_binary_xor-Fits : Keeps Fits (Bits.inst_binary_xor p i)
  unfolding Bits.inst_binary_xor
  inst_binary_xor-Fits vm f = search (steps_rules, fits_rules) depth 30

  pub inst_binary_lshft-Fits : Keeps Fits (Bits.inst_binary_lshft p i)
  unfolding Bits.inst_binary_lshft
  inst_binary_lshft-Fits vm f = search (steps_rules, fits_rules) depth 30

  pub inst_binary_rshft-Fits : Keeps Fits (Bits.inst_binary_rshft p i)
  unfolding Bits.inst_binary_rshft
  inst_binary_rshft-Fits vm f = search (steps_rules, fits_rules) depth 30

  pub inst_binary_zrshft-Fits : Keeps Fits (Bits.inst_binary_zrshft p i)
  unfolding Bits.inst_binary_zrshft
  inst_binary_zrshft-Fits vm f = search (steps_rules, fits_rules) depth 30

  pub inst_binary_not-Fits : Keeps Fits (Bits.inst_binary_not p i)
  unfolding Bits.inst_binary_not
  inst_binary_not-Fits vm f = search (fits_rules) depth 30

  pub inst_not-Fits : Keeps Fits (Compare.inst_not p i)
  unfolding Compare.inst_not
  inst_not-Fits vm f = search (fits_rules, falsy-Fits) depth 30

  pub inst_teq-Fits : Keeps Fits (Compare.inst_teq p i)
  unfolding Compare.inst_teq
  inst_teq-Fits vm f = search (steps_rules, fits_rules) depth 30 fits 8000

  pub inst_nteq-Fits : Keeps Fits (Compare.inst_nteq p i)
  unfolding Compare.inst_nteq
  inst_nteq-Fits vm f = search (steps_rules, fits_rules) depth 30 fits 8000

  pub inst_gt-Fits : Keeps Fits (Compare.inst_gt p i)
  unfolding Compare.inst_gt
  inst_gt-Fits vm f = search (steps_rules, fits_rules) depth 30

  pub inst_geq-Fits : Keeps Fits (Compare.inst_geq p i)
  unfolding Compare.inst_geq
  inst_geq-Fits vm f = search (steps_rules, fits_rules) depth 30

  pub inst_lt-Fits : Keeps Fits (Compare.inst_lt p i)
  unfolding Compare.inst_lt
  inst_lt-Fits vm f = search (steps_rules, fits_rules) depth 30

  pub inst_leq-Fits : Keeps Fits (Compare.inst_leq p i)
  unfolding Compare.inst_leq
  inst_leq-Fits vm f = search (steps_rules, fits_rules) depth 30
