-- ===== src/Execution/Bounds/Invoke.antt =====
-- `api_call_function`, `inst_call` and `vm_exec_function`: a function that returns leaves the
-- registers and the stack of its caller, and calls keep the stack counter within the array.
use atomix_js.Prelude.{
  ℕ, suc, ◌+◌, ◌≤◌, ◌≡◌, refl, inl, inr, Bool-cases, ltb, arith, List, [], ◌∷◌, reverse, length,
  length-reverse, not,
}
use atomix_js.Prelude.Word.{sub64}
use atomix_js.Value.{JsValue, has_type, js_func}
use atomix_js.Instruction.{Inst}
use atomix_js.Vm.{Vm, VmStats, Ptr, JsFunction, stack_size}
use atomix_js.Vm.Exec.{Host, push, deref_function, deref_module, deref_scope, put_scope}
use atomix_js.Vm.Keeps.{
  Ends, Keeps, IsBlind, returned, by_panic, by_crash, Ends-bind, Ends-after, Ends-mono, Ends-then,
  Ends-if, init_string-Keeps, deref_function-Keeps,
}
use atomix_js.Scope.Keeps.{scope_declare-Keeps}
use native.Mathlib.Nat.{add-zero}
use atomix_js.Execution.Calls
use atomix_js.Execution.Calls.{Calls}
use atomix_js.Execution.Locals.{text_this}
use atomix_js.Execution.Run.{
  function_loop, return_value, restore, enter_function, exec_function, vm_exec_module, module_loop,
  enter_module,
}
use atomix_js.Execution.Bounds.{Fits, Fits-IsBlind, push-Ends, need-Fits, take_top-Fits}
use atomix_js.Execution.Bounds.Memory.{heap_fits}

-- The registers, the stack, the module and the scope are as in the machine `old`.
abbrev pub SameFrame : Vm → Vm → Type 0
SameFrame old vm = (vm.stats ≡ old.stats) × (vm.current ≡ old.current) × (vm.scope ≡ old.scope)

-- What one level of calls promises to the next.
pub record IsFramed (c : Calls) : Type 0 where
  pub run : (f : Ptr) (old : Vm) → Ends (SameFrame old) (c.run f old)
  pub native : (i : ℕ) (this : JsValue) (args : List JsValue) → Keeps Fits (c.native i this args)

pub SameFrame-refl : (old : Vm) → SameFrame old old
SameFrame-refl old = (refl, refl, refl)

-- At least `n` values, and no more than the array holds.
Pushed : ℕ → VmStats → Type 0
Pushed n s = (n ≤ s.stack_counter) × (s.stack_counter ≤ stack_size)

Pushed-IsBlind : (n : ℕ) → IsBlind (λ vm. Pushed n vm.stats)
Pushed-IsBlind n = record { heap = λ vm g i. i; globals = λ vm g i. i }

push-Pushed :
    (v : JsValue) (n : ℕ) (vm : Vm)
    → Pushed n vm.stats
    → Ends (λ w. Pushed (n + 1) w.stats) (push v vm)
unfolding push Pushed
push-Pushed v n vm i = elim (Bool-cases (ltb vm.stats.stack_counter stack_size)) [
  | inl y ↦ rw y (returned (ground arith))
  | inr m ↦ rw m by_crash
]

Pushed-sub64 :
    (s : VmStats) (n m : ℕ) → n ≡ m → Pushed (n + 1) s → sub64 s.stack_counter m ≤ stack_size
unfolding Pushed sub64
Pushed-sub64 s n m same i = ground arith

push_all-Pushed :
    (vs : List JsValue) (n : ℕ) (vm : Vm)
    → Pushed n vm.stats
    → Ends (λ w. Pushed (n + length vs) w.stats) (Calls.push_all vs vm)
unfolding Calls.push_all
push_all-Pushed [] n vm i = rw add-zero (returned i)
push_all-Pushed (v ∷ vs) n vm i =
    rw (regroup n (length vs))
      (Ends-then (push-Pushed v n vm i) (λ u w j. push_all-Pushed vs (n + 1) w j))
  where
    regroup : (n m : ℕ) → n + suc m ≡ n + 1 + m
    regroup n m = omega arith

module _ (h : Host) where
  -- However the body of a function runs, a call that returns leaves the caller's program counter,
  -- stack, module and scope as they were.
  pub exec_function-SameFrame :
      (fuel : ℕ) (c : Calls) (f : Ptr) (old : Vm)
      → Ends (SameFrame old) (exec_function h fuel c f old)
  unfolding exec_function restore
  exec_function-SameFrame fuel c f old = Ends-after (deref_function f old) λ g w.
      Ends-after (enter_function g w) λ u w1.
        Ends-after (function_loop h fuel c g.instruction_end w1)
          λ u w2. Ends-after (return_value w2) λ v w3. returned (SameFrame-refl old)

  -- So does the run of a module.
  pub exec_module-SameFrame :
      (fuel : ℕ) (c : Calls) (p : Ptr) (old : Vm)
      → Ends (SameFrame old) (vm_exec_module h fuel c p old)
  unfolding vm_exec_module restore
  exec_module-SameFrame fuel c p old = Ends-after (deref_module p old) λ m w1.
      Ends-after (deref_scope m.scope w1) λ s w2.
        Ends-after (put_scope m.scope (record s { parent = old.global_scope }) w2) λ u w3.
          Ends-after (enter_module p m.scope w3)
            λ u w4. Ends-after (module_loop h fuel c w4) λ u w5. returned (SameFrame-refl old)

  pub exec_module-Fits : (fuel : ℕ) (c : Calls) (p : Ptr) → Keeps Fits (vm_exec_module h fuel c p)
  exec_module-Fits fuel c p vm fits =
      Ends-mono (exec_module-SameFrame fuel c p vm) (λ w same. rw same.0 fits)

  module _ (c : Calls) (framed : IsFramed c) where
    -- An invariant of the stack alone outlives the call of a function.
    run-Keeps :
        (I : VmStats → Type 0) (f : Ptr) (vm : Vm) → I vm.stats → Ends (λ w. I w.stats) (c.run f vm)
    run-Keeps I f vm i = Ends-mono (framed.run f vm) (λ w same. rw same.0 i)

    call_native-Fits :
        (f : JsFunction) (this : JsValue) (args : List JsValue)
        → Keeps Fits (Calls.call_native h c f this args)
    unfolding Calls.call_native
    call_native-Fits f this args vm k = search (heap_fits, framed.native) depth 12

    pub api_call_function-Fits :
        (f : Ptr) (this : JsValue) (args : List JsValue)
        → Keeps Fits (Calls.api_call_function h c f this args)
    unfolding Calls.api_call_function Pushed
    api_call_function-Fits f this args vm fits =
        Ends-bind (deref_function-Keeps Fits-IsBlind f vm fits) (λ g. λ w k.
          Ends-if g.is_native (call_native-Fits g this args)
            (λ w0 k0. Ends-then (push_all-Pushed (reverse args) 0 w0 (omega arith, k0)) λ u w1 a.
              Ends-then (init_string-Keeps (Pushed-IsBlind n) h text_this w1 a) λ key w2 b.
                Ends-then (push-Pushed this n w2 b) λ u w3 d.
                  Ends-then
                    (scope_declare-Keeps (Pushed-IsBlind (n + 1)) h g.scope text_this this w3 d)
                    λ u w4 e.
                      Ends-then (run-Keeps (Pushed (n + 1)) f w4 e)
                        λ v w5 i. returned (Pushed-sub64 w5.stats n (length args) same i))
            k)
      where
        n : ℕ
        n = 0 + length (reverse args)

        same : n ≡ length args
        same = let e = length-reverse args in omega arith

    pub inst_call-Fits : (i : Inst) → Keeps Fits (Calls.inst_call h c i)
    unfolding Calls.inst_call
    inst_call-Fits i vm fits = Ends-bind (need-Fits 1 vm fits) λ u. λ w1 k1.
        Ends-bind (take_top-Fits w1 k1) λ value. λ w2 k2.
          Ends-if (not (has_type value js_func)) (λ w k. by_panic)
            (λ w3 k3. Ends-after (deref_function value.value w3) λ f w4.
              Ends-after (Calls.call_function h c i.operand value.value f w4) λ v w5. push-Ends v _)
            k2
