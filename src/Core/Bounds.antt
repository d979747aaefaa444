-- ===== src/Core/Bounds.antt =====
-- The machine with the native functions of the core module.
use atomix_js.Prelude.{ℕ, ◌≤◌}
use atomix_js.Vm.{Vm, stack_size}
use atomix_js.Vm.Exec.{Host}
use atomix_js.Vm.Keeps.{Ends}
use atomix_js.Execution.Run.{vm_exec, function_loop, module_loop, calls}
use atomix_js.Execution.Bounds.{Fits, Fits-IsBlind}
use atomix_js.Execution.Bounds.Machine.{machine-Fits}
use atomix_js.Core.{core_natives}
use atomix_js.Core.Keeps.{core_natives-Keeps}

module _ (h : Host) where
  -- With the core module for its native functions, the machine keeps the stack counter within the
  -- array, whatever code it runs: from a counter of at most 254, every instruction and every run of
  -- the loops returns with a counter of at most 254, if it returns.
  core_machine-Fits :
      (fuel n end : ℕ) (vm : Vm)
      → vm.stats.stack_counter ≤ stack_size
      → Ends Fits (vm_exec h (calls h (core_natives h) fuel) vm)
        × Ends Fits (function_loop h n (calls h (core_natives h) fuel) end vm)
        × Ends Fits (module_loop h n (calls h (core_natives h) fuel) vm)
  core_machine-Fits =
      machine-Fits h (core_natives h)
        λ call importer kept imports. core_natives-Keeps Fits-IsBlind h call importer kept imports
