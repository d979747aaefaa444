-- ===== src/Entry.antt =====
-- debug/main.c and release/main.c: a file is loaded and its entry module is run. The two differ in
-- where the buffer comes from. `bind_modules` of core/api.c walks along a table that the build
-- generates, here a list of the modules' init functions.
pub mod Bounds
use atomix_js.Prelude.{ℕ, true, false, List, [], ◌∷◌, ◌==◌, if◌then◌else◌}
use atomix_js.Vm.{Ptr, Vm, null}
use atomix_js.Vm.Exec.{Exec, ret, pure, ◌>>=◌, ◌>>◌, Host, get_vm, deref_bundle}
use atomix_js.Scope.{scope_create_scope}
use atomix_js.Bundle.{bundle_get_module}
use atomix_js.Execution.Calls.{Calls}
use atomix_js.Execution.Run.{vm_exec_module}
use atomix_js.Loader.Bytes.{Buffer}
use atomix_js.Loader.Files.{LoadResult, load_bundle, load_module, unknown_load_from_buffer}

-- The init function of a native module, given the global scope.
abbrev pub ModuleInit : Type 0
ModuleInit = Ptr → Exec (Unit {0})

unfoldable pub bind_modules : List ModuleInit → Ptr → Exec (Unit {0})
bind_modules [] scope = pure tt
bind_modules (init ∷ inits) scope = init scope >> bind_modules inits scope

-- The registers of a new machine, which runs the module at `p`.
unfoldable pub reset : Ptr → Exec (Unit {0})
reset p vm = ret tt (record vm {
  current = p;
  stats = record vm.stats { instruction_counter = 0; stack_counter = 0; stack_start = 0 };
})

abbrev set_global_scope : Ptr → Exec (Unit {0})
set_global_scope p vm = ret tt (record vm { global_scope = p })

module _ (h : Host) (inits : List ModuleInit) where
  unfoldable pub vm_init : Ptr → Exec (Unit {0})
  vm_init p = do
    reset p
    scope ← scope_create_scope h null
    set_global_scope scope
    bind_modules inits scope

  module _ (fuel : ℕ) (c : Calls) where
    unfoldable pub start : Ptr → Exec (Unit {0})
    start p = do vm_init p; vm_exec_module h fuel c p

    -- A bundle without an entry point runs nothing.
    unfoldable pub run_loaded : Ptr → Ptr → LoadResult → Exec (Unit {0})
    run_loaded module_ptr bundle load_module = start module_ptr
    run_loaded module_ptr bundle load_bundle = do
      b ← deref_bundle bundle
      if b.entry_point == 0
          then pure tt
          else do p ← bundle_get_module h bundle b.entry_point; start p

    unfoldable pub main : Buffer → Ptr → Ptr → Exec (Unit {0})
    main buff module_ptr bundle = do
      result ← unknown_load_from_buffer h buff module_ptr bundle
      run_loaded module_ptr bundle result
