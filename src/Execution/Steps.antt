-- ===== src/Execution/Steps.antt =====
-- Runs of the loop of `vm_exec_module` through the code of one module, step by step.
use atomix_js.Prelude.{
  ℕ, suc, ◌+◌, ◌≤◌, ◌<◌, ◌≡◌, refl, ap, ◌∙◌, sym, Bool, true, false, some, length, get_elem?,
  get_elem?-some-lt, arith, ltb, leb, if◌then◌else◌,
}
use mathlib.Core.Path.{subst}
use atomix_js.Format.Element.{element_lem}
use atomix_js.Instruction.{Inst, Opcode}
use atomix_js.Value.{value_is_falsy}
use atomix_js.Vm.{Vm, JsModule}
use atomix_js.Vm.Exec.{
  Host, Exec, Outcome, pure, ret, then_run, deref_module, set_instruction_counter, ◌>>=◌, ◌>>◌,
}
use atomix_js.Execution.Calls.{Calls}
use atomix_js.Execution.Compare.{falsy}
use atomix_js.Execution.Locals.{take_top, inst_jmp, inst_jmp_f}
use atomix_js.Execution.Run.{vm_exec, run_instruction, inst_set, module_loop}
use atomix_js.Execution.Straight.Loop.{chosen_true, chosen_false}

-- The machine with its program counter at `k`.
abbrev pub at : ℕ → Vm → Vm
at k vm = record vm { stats = record vm.stats { instruction_counter = k } }

bind_assoc :
    {A B C : Type 0} (r : Outcome A) (f : A → Exec B) (g : B → Exec C)
    → then_run r (λ a vm. then_run (f a vm) g) ≡ then_run (then_run r f) g
bind_assoc (Outcome.ret a vm) f g = refl
bind_assoc (Outcome.panicked e) f g = refl
bind_assoc Outcome.crashed f g = refl
bind_assoc Outcome.out_of_fuel f g = refl

module _ (h : Host) (c : Calls) (m : JsModule) where
  -- The current module is `m`.
  abbrev pub Here : Vm → Type 0
  Here vm = vm.heap.modules vm.current ≡ some m

  -- What an instruction does, wherever it stands in the code.
  pub record Does (i : Inst) (vm vm' : Vm) : Type 0 where
    pub here : Here vm
    pub does : (k : ℕ) → run_instruction h c (some i) (at k vm) ≡ ret tt (at k vm')

  -- The value on top is taken off, and `falsy` says whether it is falsy.
  pub record Tests (b : Bool) (vm vm' : Vm) : Type 0 where
    pub here : Here vm
    pub tests :
        (k : ℕ)
        → (take_top >>= λ test. falsy (value_is_falsy h.platform test)) (at k vm) ≡ ret b (at k vm')

  pub data Runs : Vm → Vm → Type 0 where
    stop : {vm vm' : Vm} → vm ≡ vm' → Runs vm vm'
    step :
        {vm vm1 vm' : Vm}
        → Here vm
        → vm.stats.instruction_counter < m.count
        → vm_exec h c vm ≡ ret tt vm1
        → Runs vm1 vm'
        → Runs vm vm'

  pub Runs-trans : {vm vm1 vm' : Vm} → Runs vm vm1 → Runs vm1 vm' → Runs vm vm'
  Runs-trans {vm' = vm'} (stop e) s = subst (λ v. Runs v vm') (sym e) s
  Runs-trans (step here below e r) s = step here below e (Runs-trans r s)

  pub Runs-to : {k l : ℕ} {vm : Vm} (vm' : Vm) → k ≡ l → Runs vm (at k vm') → Runs vm (at l vm')
  Runs-to {vm = vm} vm' e r = subst (λ n. Runs vm (at n vm')) e r

  -- The loop makes the steps of a run that ends behind the code, and ends there.
  pub module_loop-Runs :
      {vm vm' : Vm}
      → Runs vm vm'
      → Here vm'
      → m.count ≤ vm'.stats.instruction_counter
      → (fuel : ℕ) × (module_loop h fuel c vm ≡ ret tt vm')
  unfolding module_loop deref_module
  module_loop-Runs {vm} {vm'} (stop e) here past = (
    1,
    subst (λ v. module_loop h 1 c v ≡ ret tt vm') (sym e)
        (rw here (
          chosen_false (vm_exec h c >> module_loop h 0 c) (pure tt)
            (ltb vm'.stats.instruction_counter m.count) vm' (ground arith))),
  )
  module_loop-Runs {vm} (step now below e r) here past =
      let rest = module_loop-Runs r here past in
      (
        suc rest.0,
        rw now (
            chosen_true (vm_exec h c >> module_loop h rest.0 c) (pure tt)
              (ltb vm.stats.instruction_counter m.count) vm (ground arith)
            ∙ rw e rest.1),
      )

  module _ (counted : m.count ≡ length m.instructions) where
    vm_exec-Runs :
        (k : ℕ) (i : Inst) (vm vm' : Vm)
        → Here vm
        → get_elem? m.instructions k ≡ some (some i)
        → run_instruction h c (some i) (at (k + 1) vm) ≡ ret tt vm'
        → Runs (at k vm) vm'
    unfolding vm_exec deref_module
    vm_exec-Runs k i vm vm' here found run =
        let below = get_elem?-some-lt m.instructions k (some i) found in
        step here (omega arith)
          (rw (here, not_beyond (omega arith), element_lem m.instructions k (some i) found) run)
          (stop refl)
      where
        not_beyond : k < m.count → leb m.count k ≡ false
        not_beyond b = ground arith

    pub Does-Runs :
        (k : ℕ) (i : Inst) {vm vm' : Vm}
        → get_elem? m.instructions k ≡ some (some i)
        → Does i vm vm'
        → Runs (at k vm) (at (k + 1) vm')
    Does-Runs k i {vm} {vm'} found d =
        vm_exec-Runs k i vm (at (k + 1) vm') d.here found (d.does (k + 1))

    pub jmp-Runs :
        (k target : ℕ) (vm : Vm)
        → get_elem? m.instructions k
          ≡ some (some (record { opcode = Opcode.op_jmp; operand = target; operand2 = 0 }))
        → Here vm
        → Runs (at k vm) (at target vm)
    unfolding run_instruction inst_set inst_jmp
    jmp-Runs k target vm found here = vm_exec-Runs k _ vm (at target vm) here found refl

    pub jmp_f-Runs :
        (k target : ℕ) (b : Bool) {vm vm' : Vm}
        → get_elem? m.instructions k
          ≡ some (some (record { opcode = Opcode.op_jmp_f; operand = target; operand2 = 0 }))
        → Tests b vm vm'
        → Runs (at k vm) (at (if b then target else k + 1) vm')
    unfolding run_instruction inst_set inst_jmp_f
    jmp_f-Runs k target b {vm} {vm'} found t =
        vm_exec-Runs k _ vm (at (if b then target else k + 1) vm') t.here found (
          bind_assoc (take_top (at (k + 1) vm)) _ _
          ∙ ap (λ r. then_run r (λ b. if b then set_instruction_counter target else pure tt))
              (t.tests (k + 1))
          ∙ chosen b target (k + 1) vm')
      where
        chosen :
            (b : Bool) (target k : ℕ) (vm : Vm)
            → (if b then set_instruction_counter target else pure tt) (at k vm)
              ≡ ret tt (at (if b then target else k) vm)
        chosen true target k vm = refl
        chosen false target k vm = refl
