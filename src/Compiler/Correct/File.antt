-- ===== src/Compiler/Correct/File.antt =====
-- From the tree through a file to the machine: a program that atomixc compiles and writes, and that the
-- loader reads.
use atomix_js.Prelude.{ℕ, ◌≡◌, ap, sym, ◌∙◌, some, Str, length, get_elem?, arith}
use mathlib.Core.Path.{subst}
use mathlib.Core.Option.{some-injective}
use atomix_js.Vm.{Vm, Ptr, JsModule}
use atomix_js.Vm.Exec.{Host, Outcome, ret}
use atomix_js.Vm.Succeeds.{Succeeds, succeeds, Allocates}
use atomix_js.Execution.Calls.{Calls}
use atomix_js.Execution.Run.{module_loop}
use atomix_js.Execution.Steps.{at, Here}
use atomix_js.Loader.Files.{LoadResult, unknown_load_from_buffer}
use atomix_js.Loader.Trip.Holds.{Holds, Holds-self}
use atomix_js.Loader.Trip.Module.{IsWritable, module_of}
use atomix_js.Loader.Trip.Table.{HasNoNul, string_table_load_str-table_of}
use atomix_js.Loader.Trip.Bundle.{unknown_load_from_buffer-write_module}
use atomix_js.Loader.Write.{write_module, data_start}
use atomix_js.Compiler.Syntax.{Node}
use atomix_js.Compiler.Emit.{Numbers, PipeContext, done}
use atomix_js.Compiler.Pipe.{begin_pipe}
use atomix_js.Compiler.Meaning.{Evaluates}
use atomix_js.Compiler.Write.{write_module_format}
use atomix_js.Compiler.Write.Sections.{
  module_format, all_kept-loaded, length-map-to_inst, write_module_format_lem,
}
use atomix_js.Compiler.Correct.Run.{length-loaded, begin_pipe-module_loop}
use atomix_js.Compiler.Correct.Sections.{begin_pipe-IsContext, begin_pipe-AllShaped}

abbrev Returned : {A : Type 0} → (A → Vm → Type 0) → Outcome A → Type 0
Returned P (Outcome.ret a vm) = P a vm
Returned P _ = Unit

Succeeds-Returned : {A : Type 0} {P : A → Vm → Type 0} {r : Outcome A} → Succeeds P r → Returned P r
Succeeds-Returned (succeeds p) = p

module _ (h : Host) (c : Calls) (js : Numbers) (memory : Allocates h) where
  module_of-module_loop :
      (tree : Node) (ctx : PipeContext) (low high : ℕ) (exports scope : Ptr) (vm vm' : Vm)
      → begin_pipe js tree ≡ done tt ctx
      → IsWritable (module_format low high ctx)
      → ((i : ℕ) (s : Str) → get_elem? ctx.stable.strings i ≡ some s → HasNoNul s)
      → Evaluates h c (module_of (module_format low high ctx) exports scope) js tree vm vm'
      → Here h c (module_of (module_format low high ctx) exports scope) vm'
      → (fuel : ℕ) × (module_loop h fuel c (at 0 vm)
          ≡ ret tt (at (module_of (module_format low high ctx) exports scope).count vm'))
  unfolding data_start
  module_of-module_loop tree ctx low high exports scope vm vm' e fits clean means here =
      let m = module_of (module_format low high ctx) exports scope in
      let holds =
        all_kept-loaded ctx.data_section.instructions (begin_pipe-AllShaped js tree ctx e) in
      let start = fits.data_start_fits in
      begin_pipe-module_loop h c m js tree ctx vm vm' e
        (length-map-to_inst ctx.data_section.instructions
          ∙ sym (length-loaded ctx.data_section.instructions)
          ∙ ap length (sym holds))
        holds
        (λ i s found.
          string_table_load_str-table_of i ctx.stable.strings s found (omega arith)
            (clean i s found))
        means here

  -- A program that atomixc compiles and writes to a file, where every number fits its field and no
  -- string holds a NUL: the module that the loader makes of the file, where the collector has memory
  -- left, does what the program means. From any machine in which the program has a meaning with that
  -- module, the loop of vm_exec_module ends in the machine that the program means, with the program
  -- counter behind the code.
  pub compile-load-module_loop :
      (tree : Node) (ctx : PipeContext) (low high : ℕ) (p bundle : Ptr) (start loaded : Vm)
      (result : LoadResult) (m : JsModule) (vm vm' : Vm)
      → begin_pipe js tree ≡ done tt ctx
      → IsWritable (module_format low high ctx)
      → ((i : ℕ) (s : Str) → get_elem? ctx.stable.strings i ≡ some s → HasNoNul s)
      → unknown_load_from_buffer h
          (write_module_format low high ctx.stable ctx.data_section)
          p
          bundle
          start
        ≡ ret result loaded
      → loaded.heap.modules p ≡ some m
      → Evaluates h c m js tree vm vm'
      → Here h c m vm'
      → (fuel : ℕ) × (module_loop h fuel c (at 0 vm) ≡ ret tt (at m.count vm'))
  compile-load-module_loop tree ctx low high p bundle start loaded result m vm vm' e fits clean
        reads found means here =
      let f = module_format low high ctx in
      let bytes =
        write_module_format_lem low high ctx (begin_pipe-IsContext js tree ctx e)
          (begin_pipe-AllShaped js tree ctx e) in
      let held : Holds (write_module_format low high ctx.stable ctx.data_section) 0
          (write_module f) =
        subst (λ b. Holds b 0 (write_module f)) (sym bytes) (Holds-self (write_module f)) in
      let r = subst (Returned _) reads (
        Succeeds-Returned (
          unknown_load_from_buffer-write_module h memory
            (write_module_format low high ctx.stable ctx.data_section) f p bundle start fits
            held)) in
      let exports = (r.1).0 in
      let scope = (r.1).1.0 in
      let same : module_of f exports scope ≡ m =
        some-injective (module_of f exports scope) m (sym (r.1).1.1 ∙ found) in
      subst
        (λ n.
          Evaluates h c n js tree vm vm'
          → Here h c n vm'
          → (fuel : ℕ) × (module_loop h fuel c (at 0 vm) ≡ ret tt (at n.count vm')))
        same (module_of-module_loop tree ctx low high exports scope vm vm' e fits clean) means here
