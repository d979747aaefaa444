-- ===== src/Execution/Bounds/Frames.antt =====
-- What calls of core/execution.c and core/api.c do to the caller's registers and stack.
use atomix_js.Prelude.{
  ℕ, suc, zero, ◌+◌, ◌-◌, ◌≡◌, ◌≤◌, refl, false, some, List, [], ◌∷◌, reverse, length,
  length-reverse, arith, Bool-cases, inl, inr, ltb,
}
use atomix_js.Prelude.Word.{sub64}
use atomix_js.Value.{JsValue, has_type, js_func}
use atomix_js.Instruction.{Inst}
use atomix_js.Vm.{Vm, Ptr, JsFunction, stack_size}
use atomix_js.Vm.Exec.{Host, ret, deref_function, push, load_slot, need}
use atomix_js.Vm.Keeps.{
  Ends, IsBlind, returned, by_panic, by_crash, by_fuel, Ends-then, Ends-mono, init_string-Keeps,
}
use atomix_js.Scope.Keeps.{scope_declare-Keeps}
use atomix_js.Execution.Calls
use atomix_js.Execution.Locals.{text_this, take_top}
use atomix_js.Execution.Run.{Natives, calls, vm_exec_function, vm_exec_module}
use atomix_js.Execution.Bounds.Invoke.{SameFrame, exec_function-SameFrame, exec_module-SameFrame}

-- The stack counter is `n`.
At : ℕ → Vm → Type 0
At n vm = vm.stats.stack_counter ≡ n

At-refl : (vm : Vm) → At vm.stats.stack_counter vm
unfolding At
At-refl vm = refl

At-sub64 :
    (vm : Vm) (m k : ℕ) {n : ℕ}
    → k ≤ stack_size
    → n ≡ m + k
    → At (n + 1) vm
    → sub64 vm.stats.stack_counter m ≡ k + 1
unfolding At sub64
At-sub64 vm m k fits same i = ground arith

operands_lem :
    (n k : ℕ) {c c' : ℕ}
    → k + 2 ≤ n
    → n ≤ stack_size
    → c ≡ n - 1
    → c' ≡ sub64 c (k + 1) + 1
    → c' + (k + 1) ≡ n
unfolding sub64
operands_lem n k enough fits a b = ground arith

At-IsBlind : (n : ℕ) → IsBlind (At n)
unfolding At
At-IsBlind n = record { heap = λ vm g i. i; globals = λ vm g i. i }

push-At : (v : JsValue) (n : ℕ) (vm : Vm) → At n vm → Ends (At (n + 1)) (push v vm)
unfolding push At
push-At v n vm i = elim (Bool-cases (ltb vm.stats.stack_counter stack_size)) [
  | inl y ↦ rw y (returned (omega arith))
  | inr m ↦ rw m by_crash
]

load_slot-At : (k n : ℕ) (vm : Vm) → At n vm → Ends (At n) (load_slot k vm)
unfolding load_slot
load_slot-At k n vm i = elim (Bool-cases (ltb k stack_size)) [
  | inl y ↦ rw y (returned i)
  | inr m ↦ rw m by_crash
]

take_top_lem :
    (vm : Vm)
    → 1 ≤ vm.stats.stack_counter
    → vm.stats.stack_counter ≤ stack_size
    → take_top vm
      ≡ ret
          (vm.stats.stack (vm.stats.stack_counter - 1))
          (record vm { stats = record vm.stats { stack_counter = vm.stats.stack_counter - 1 } })
unfolding take_top load_slot sub64
take_top_lem vm filled fits = ground arith

push_all-At :
    (vs : List JsValue) (n : ℕ) (vm : Vm)
    → At n vm
    → Ends (At (length vs + n)) (Calls.push_all vs vm)
unfolding Calls.push_all At
push_all-At [] n vm i = returned (omega arith)
push_all-At (v ∷ vs) n vm i =
    Ends-then (push-At v n vm i)
      (λ u w j. Ends-mono (push_all-At vs (n + 1) w j) (λ w2 e. omega arith))

module _ (h : Host) (natives : Natives) where
  -- A call of a bytecode function that returns, whatever its body did, leaves the caller's program
  -- counter, stack, stack counter, module and scope as they were.
  pub vm_exec_function-SameFrame :
      (fuel : ℕ) (f : Ptr) (old : Vm) → Ends (SameFrame old) (vm_exec_function h natives fuel f old)
  unfolding vm_exec_function calls
  vm_exec_function-SameFrame zero f old = by_fuel
  vm_exec_function-SameFrame (suc fuel) f old =
      exec_function-SameFrame h fuel (calls h natives fuel) f old

  -- A run of a module that returns leaves the importer's program counter, stack, stack counter,
  -- module and scope as they were.
  pub vm_exec_module-SameFrame :
      (fuel n : ℕ) (p : Ptr) (old : Vm)
      → Ends (SameFrame old) (vm_exec_module h n (calls h natives fuel) p old)
  vm_exec_module-SameFrame fuel n p old = exec_module-SameFrame h n (calls h natives fuel) p old

  run-At :
      (fuel : ℕ) (f : Ptr) (n : ℕ) (vm : Vm)
      → At n vm
      → Ends (At n) (vm_exec_function h natives fuel f vm)
  unfolding At
  run-At fuel f n vm i = Ends-mono (vm_exec_function-SameFrame fuel f vm) (λ w same. rw same.0 i)

  -- `api_call_function` on a bytecode function, if it returns, leaves one value more on the stack
  -- than there was: it pushes `this` and the arguments, and takes off the arguments only.
  pub api_call_function_leftover :
      (fuel : ℕ) (f : Ptr) (g : JsFunction) (this : JsValue) (args : List JsValue) (vm : Vm)
      → vm.heap.functions f ≡ some g
      → g.is_native ≡ false
      → vm.stats.stack_counter ≤ stack_size
      → Ends
          (λ w. w.stats.stack_counter ≡ vm.stats.stack_counter + 1)
          (Calls.api_call_function h (calls h natives fuel) f this args vm)
  unfolding Calls.api_call_function deref_function calls vm_exec_function At
  api_call_function_leftover fuel f g this args vm is g_code fits =
      rw (is, g_code)
        (Ends-then (push_all-At (reverse args) vm.stats.stack_counter vm (At-refl vm)) λ u w1 a.
          Ends-then (init_string-Keeps (At-IsBlind n) h text_this w1 a) λ key w2 b.
            Ends-then (push-At this n w2 b) λ u w3 d.
              Ends-then (scope_declare-Keeps (At-IsBlind (n + 1)) h g.scope text_this this w3 d)
                λ u w4 e.
                  Ends-then (run-At fuel f (n + 1) w4 e)
                    λ v w5 i. returned (At-sub64 w5 (length args) _ fits same i))
    where
      n : ℕ
      n = length (reverse args) + vm.stats.stack_counter

      same : n ≡ length args + vm.stats.stack_counter
      same = let e = length-reverse args in omega arith

  called-At :
      (fuel : ℕ) (operand : ℕ) (p : Ptr) (g : JsFunction) (n : ℕ) (vm : Vm)
      → g.is_native ≡ false
      → At n vm
      → Ends (At n) (Calls.call_function h (calls h natives fuel) operand p g vm)
  unfolding Calls.call_function calls vm_exec_function
  called-At fuel operand p g n vm g_code i = rw g_code (
      Ends-then (load_slot-At (sub64 vm.stats.stack_counter 1) n vm i) λ v w1 a.
        Ends-then (init_string-Keeps (At-IsBlind n) h text_this w1 a) λ key w2 b.
          Ends-then (scope_declare-Keeps (At-IsBlind n) h g.scope text_this v w2 b)
            λ u w3 d. run-At fuel p n w3 d)

  -- A call instruction with `n` arguments whose callee on top of the stack is a bytecode function, if
  -- it returns, takes the callee, `this` and the arguments off and puts one value on: the counter
  -- falls by `n + 1`.
  pub inst_call_pops :
      (fuel : ℕ) (i : Inst) (g : JsFunction) (vm : Vm)
      → i.operand + 2 ≤ vm.stats.stack_counter
      → vm.stats.stack_counter ≤ stack_size
      → vm.heap.functions (vm.stats.stack (vm.stats.stack_counter - 1)).value ≡ some g
      → g.is_native ≡ false
      → Ends
          (λ w. w.stats.stack_counter + (i.operand + 1) ≡ vm.stats.stack_counter)
          (Calls.inst_call h (calls h natives fuel) i vm)
  unfolding Calls.inst_call deref_function need At
  inst_call_pops fuel i g vm enough fits is g_code =
      rw (not_less, take_top_lem vm (omega arith) fits)
        (elim (Bool-cases (has_type top js_func)) [
          | inr other ↦ rw other by_panic
          | inl func ↦
              rw (func, is)
                (Ends-then
                  (called-At fuel i.operand top.value g (vm.stats.stack_counter - 1) popped g_code
                    At_popped)
                  λ v w a.
                    Ends-mono (push-At v (sub64 w.stats.stack_counter (i.operand + 1)) _ refl)
                      λ w2 e. operands_lem vm.stats.stack_counter i.operand enough fits a e)
        ])
    where
      top : JsValue
      top = vm.stats.stack (vm.stats.stack_counter - 1)

      popped : Vm
      popped = record vm { stats = record vm.stats { stack_counter = vm.stats.stack_counter - 1 } }

      At_popped : At (vm.stats.stack_counter - 1) popped
      At_popped = refl

      not_less : ltb vm.stats.stack_counter 1 ≡ false
      not_less = ground arith
