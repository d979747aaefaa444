-- ===== src/Vm/Live.antt =====
-- The live part of the stack as a list, the value on top first.

use atomix_js.Prelude.{ℕ, zero, suc, ◌-◌, ◌≤◌, ◌≡◌, refl, ap, ◌∙◌, List, [], ◌∷◌, arith}
use atomix_js.Prelude.Word.{sub64, sub64_lem}
use atomix_js.Value.{JsValue}
use atomix_js.Vm.{Vm, update, stack_size}

unfoldable pub live : ℕ → (ℕ → JsValue) → List JsValue
live zero stack = []
live (suc n) stack = stack n ∷ live n stack

unfoldable pub live_stack : Vm → List JsValue
unfolding live
live_stack vm = live vm.stats.stack_counter vm.stats.stack

-- The machine with another stack: `n` live values, and the slot `i` written.
abbrev pub with_slot : Vm → ℕ → ℕ → JsValue → Vm
with_slot vm n i v = record vm {
  stats = record vm.stats { stack_counter = n; stack = update vm.stats.stack i v };
}

-- A write above the live part is not seen.
pub live-update_ge :
    (n i : ℕ) (v : JsValue) (stack : ℕ → JsValue) → n ≤ i → live n (update stack i v) ≡ live n stack
unfolding live
live-update_ge zero i v stack h = refl
live-update_ge (suc n) i v stack h = ground (arith, live-update_ge n i v stack)

-- The counters of a handler with two operands, before and behind the step down.
pub sub64_operands :
    (n : ℕ)
    → 2 ≤ n
    → n ≤ stack_size
    → (sub64 n 1 ≡ n - 1) × (sub64 n 2 ≡ n - 2) × (sub64 (sub64 n 1) 1 ≡ n - 2)
sub64_operands n two fits =
    let one = sub64_lem n 1 (omega arith) (omega arith) in
    (
      one,
      sub64_lem n 2 two (omega arith),
      ap (λ k. sub64 k 1) one ∙ sub64_lem (n - 1) 1 (omega arith) (omega arith) ∙ omega arith,
    )
