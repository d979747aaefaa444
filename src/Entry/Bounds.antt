-- ===== src/Entry/Bounds.antt =====
-- A whole run of the interpreter, from the file on.
use atomix_js.Prelude.{ℕ, ◌≤◌, ◌==◌, List, [], ◌∷◌, arith}
use atomix_js.Vm.{Vm, Ptr, stack_size}
use atomix_js.Vm.Exec.{Host}
use atomix_js.Vm.Keeps.{Ends, Keeps, returned, Ends-bind, Ends-if, deref_bundle-Keeps}
use atomix_js.Scope.Keeps.{scope_create_scope-Keeps}
use atomix_js.Bundle.Keeps.{bundle_get_module-Keeps}
use atomix_js.Execution.Calls
use atomix_js.Execution.Calls.{Calls}
use atomix_js.Execution.Run.{calls}
use atomix_js.Execution.Bounds.{Fits, Fits-IsBlind}
use atomix_js.Execution.Bounds.Invoke.{exec_module-Fits, api_call_function-Fits}
use atomix_js.Execution.Bounds.Machine.{calls-IsFramed}
use atomix_js.Loader.Bytes.{Buffer}
use atomix_js.Loader.Files.{LoadResult, load_bundle, load_module}
use atomix_js.Loader.Keeps.{unknown_load_from_buffer-Keeps}
use atomix_js.Core.{core_natives}
use atomix_js.Core.Keeps.{core_natives-Keeps}
use atomix_js.Core.Init.{core_init}
use atomix_js.Core.InitKeeps.{core_init-Keeps}
use atomix_js.Entry.{ModuleInit, bind_modules, reset, vm_init, start, run_loaded, main}

module _ (h : Host) (fuel : ℕ) where
  -- The machine with the core module.
  abbrev core_calls : Calls
  core_calls = calls h (core_natives h) fuel

  abbrev pub core_inits : List ModuleInit
  core_inits = core_init h (Calls.api_call_function h core_calls) ∷ []

  bind_modules-Fits : (s : Ptr) → Keeps Fits (bind_modules core_inits s)
  unfolding bind_modules
  bind_modules-Fits s vm fits =
      Ends-bind
        (core_init-Keeps Fits-IsBlind h (Calls.api_call_function h core_calls)
          (api_call_function-Fits h core_calls (
            calls-IsFramed h (core_natives h)
              (λ call importer kept imports.
                core_natives-Keeps Fits-IsBlind h call importer kept imports)
              fuel))
          s vm fits)
        λ u. λ w k. returned k

  vm_init-Fits : (p : Ptr) → Keeps Fits (vm_init h core_inits p)
  unfolding vm_init reset
  vm_init-Fits p vm fits =
      Ends-bind (scope_create_scope-Keeps Fits-IsBlind h _ _ (omega arith))
        λ s. λ w k. bind_modules-Fits s _ k

  start-Fits : (p : Ptr) → Keeps Fits (start h core_inits fuel core_calls p)
  unfolding start
  start-Fits p vm fits =
      Ends-bind (vm_init-Fits p vm fits) λ u. exec_module-Fits h fuel core_calls p

  run_loaded-Fits :
      (m b : Ptr) (r : LoadResult) → Keeps Fits (run_loaded h core_inits fuel core_calls m b r)
  unfolding run_loaded
  run_loaded-Fits m b load_module vm fits = start-Fits m vm fits
  run_loaded-Fits m b load_bundle vm fits =
      Ends-bind (deref_bundle-Keeps Fits-IsBlind b vm fits) λ found. λ w k.
        Ends-if (found.entry_point == 0) (λ w1 k1. returned k1)
          (λ w1 k1.
            Ends-bind (bundle_get_module-Keeps Fits-IsBlind h b found.entry_point w1 k1) start-Fits)
          k

  -- Whatever file the interpreter is given, with the core module for its native modules, a run of it
  -- that returns leaves a stack counter of at most 254, from one of at most 254.
  pub main-Fits :
      (buff : Buffer) (module_ptr bundle : Ptr) (vm : Vm)
      → vm.stats.stack_counter ≤ stack_size
      → Ends Fits (main h core_inits fuel core_calls buff module_ptr bundle vm)
  unfolding main
  main-Fits buff module_ptr bundle vm fits =
      Ends-bind (unknown_load_from_buffer-Keeps Fits-IsBlind h buff module_ptr bundle vm fits)
        (run_loaded-Fits module_ptr bundle)
