-- ===== src/Execution/Stack/View.antt =====
-- POP, DUP and SWAP of core/execution.c on the live part of the stack as a list.
use atomix_js.Prelude.{ℕ, suc, ◌<◌, ◌≡◌, refl, List, ◌∷◌, Option, none, some, arith}
use atomix_js.Prelude.Word.{sub64}
use atomix_js.Value.{JsValue}
use atomix_js.Instruction.{Inst}
use atomix_js.Vm.{Vm, stack_size, update}
use atomix_js.Vm.Exec.{Outcome, ret}
use atomix_js.Vm.Live.{live, live_stack, with_slot, live-update_ge}
use atomix_js.Execution.Stack.{inst_pop, inst_dup, inst_swap}

-- The live stack of the machine that is returned.
abbrev pub stack_after : Outcome (Unit {0}) → Option (List JsValue)
stack_after (ret u vm) = some (live_stack vm)
stack_after _ = none

module _ (inst : Inst) (vm : Vm) (n : ℕ) (filled : vm.stats.stack_counter ≡ suc (suc n))
    (fits : suc (suc n) < stack_size) where
  pop_step :
      inst_pop inst vm ≡ ret tt (record vm { stats = record vm.stats { stack_counter = suc n } })
  unfolding inst_pop sub64
  pop_step = ground arith

  dup_step :
      inst_dup inst vm
      ≡ ret tt (with_slot vm (suc (suc (suc n))) (suc (suc n)) (vm.stats.stack (suc n)))
  unfolding inst_dup sub64
  dup_step = ground arith

  swapped : ℕ → JsValue
  swapped = update (update vm.stats.stack n (vm.stats.stack (suc n))) (suc n) (vm.stats.stack n)

  swap_step : inst_swap inst vm ≡ ret tt (record vm { stats = record vm.stats { stack = swapped } })
  unfolding inst_swap sub64 swapped
  swap_step = ground arith

  pop_view : stack_after (inst_pop inst vm) ≡ some (vm.stats.stack n ∷ live n vm.stats.stack)
  unfolding live_stack live
  pop_view = rw pop_step refl

  dup_view :
      stack_after (inst_dup inst vm)
      ≡ some (
          vm.stats.stack (suc n)
          ∷ vm.stats.stack (suc n)
          ∷ vm.stats.stack n
          ∷ live n vm.stats.stack)
  unfolding live_stack live
  dup_view =
      rw dup_step
        (ground (arith, live-update_ge n (suc (suc n)) (vm.stats.stack (suc n)) vm.stats.stack))

  swap_view :
      stack_after (inst_swap inst vm)
      ≡ some (vm.stats.stack n ∷ vm.stats.stack (suc n) ∷ live n vm.stats.stack)
  unfolding live_stack live swapped
  swap_view =
      rw (swap_step, filled)
        (ground (
          arith,
          live-update_ge n (suc n) (vm.stats.stack n)
              (update vm.stats.stack n (vm.stats.stack (suc n))),
          live-update_ge n n (vm.stats.stack (suc n)) vm.stats.stack,
        ))

  -- With at least two values `a` and `b` (`a` on top) on a stack that is not full, POP leaves `b` and
  -- the rest, DUP leaves `a`, `a`, `b` and the rest, and SWAP leaves `b`, `a` and the rest.
  pub stack_ops_lem :
      (stack_after (inst_pop inst vm) ≡ some (vm.stats.stack n ∷ live n vm.stats.stack))
      × (stack_after (inst_dup inst vm)
          ≡ some (
              vm.stats.stack (suc n)
              ∷ vm.stats.stack (suc n)
              ∷ vm.stats.stack n
              ∷ live n vm.stats.stack))
      × (stack_after (inst_swap inst vm)
          ≡ some (vm.stats.stack n ∷ vm.stats.stack (suc n) ∷ live n vm.stats.stack))
  stack_ops_lem = (pop_view, dup_view, swap_view)
