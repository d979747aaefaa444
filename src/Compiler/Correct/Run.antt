-- ===== src/Compiler/Correct/Run.antt =====
-- A module that holds the code of a program, run by the loop of `vm_exec_module`.
use atomix_js.Prelude.{
  ℕ, suc, ◌+◌, ◌≡◌, refl, ap, sym, ◌∙◌, Option, some, List, [], ◌∷◌, ◌++◌, length, length-append,
  map, get_elem?, arith,
}
use mathlib.Core.Path.{subst}
use mathlib.Core.List.{append_assoc}
use atomix_js.Instruction.{Inst}
use atomix_js.Vm.{Vm, JsModule}
use atomix_js.Vm.Exec.{Host, ret}
use atomix_js.Execution.Calls.{Calls}
use atomix_js.Execution.Run.{module_loop}
use atomix_js.Execution.Steps.{at, Here, Runs-to, module_loop-Runs}
use atomix_js.Compiler.Syntax.{Node}
use atomix_js.Compiler.Sections.{Instruction, new_data_section, new_stable_section}
use atomix_js.Compiler.Sections.Valid.{new_data_section-IsData}
use atomix_js.Compiler.Sections.Strings.{new_stable_section-IsStable, get_elem?-append_here}
use atomix_js.Compiler.Emit.{Numbers, PipeContext, Piped, done, thrown}
use atomix_js.Compiler.Pipe.{begin_pipe}
use atomix_js.Compiler.Growth.{IsContext, Ensures, ends, throws}
use atomix_js.Compiler.Meaning.{Evaluates}
use atomix_js.Compiler.Implements.{to_inst, Stands, Listed, Emitted}
use atomix_js.Compiler.Correct.{node-Implements}

abbrev Ended : {A : Type 0} → (A → PipeContext → Type 0) → Piped A → Type 0
Ended Q (done a ctx) = Q a ctx
Ended Q (thrown e) = Unit

Ensures-Ended : {A : Type 0} {Q : A → PipeContext → Type 0} {r : Piped A} → Ensures Q r → Ended Q r
Ensures-Ended (ends q) = q
Ensures-Ended throws = tt

-- The empty sections.
abbrev pub empty : PipeContext
empty = record { stable = new_stable_section; data_section = new_data_section }

empty-IsContext : IsContext empty
empty-IsContext = record {
  data_valid = new_data_section-IsData;
  stable_valid = new_stable_section-IsStable;
}

-- The instructions as the loader leaves them in a module.
abbrev pub loaded : List Instruction → List (Option Inst)
loaded instructions = map (λ i. some (to_inst i)) instructions

pub length-loaded : (code : List Instruction) → length (loaded code) ≡ length code
length-loaded [] = refl
length-loaded (i ∷ code) = ap suc (length-loaded code)

module _ (h : Host) (c : Calls) (m : JsModule) (js : Numbers) where
  loaded-Stands :
      (k : ℕ) (code : List Instruction) (front : List (Option Inst))
      → k ≡ length front
      → m.instructions ≡ front ++ loaded code
      → Stands h c m k code
  loaded-Stands k [] front e f = tt
  loaded-Stands k (i ∷ code) front e f = (
    ap (λ l. get_elem? l k) f ∙ get_elem?-append_here front (loaded code) (some (to_inst i)) k e,
    loaded-Stands (k + 1) code (front ++ some (to_inst i) ∷ [])
        (omega (arith, length-append front (some (to_inst i) ∷ [])))
        (f ∙ sym (append_assoc front (some (to_inst i) ∷ []) (loaded code))),
  )

  pub begin_pipe-Emitted :
      (tree : Node) (ctx : PipeContext)
      → m.count ≡ length m.instructions
      → begin_pipe js tree ≡ done tt ctx
      → Emitted h c m (Evaluates h c m js tree) empty ctx
  unfolding begin_pipe
  begin_pipe-Emitted tree ctx counted e =
      let i = node-Implements h c m js counted tree in
      subst (Ended (λ _ ctx'. Emitted h c m (Evaluates h c m js tree) empty ctx')) e
        (Ensures-Ended (i.implements empty empty-IsContext tt))

  -- A program that atomixc compiles, in a module that holds its code and its strings: from any machine
  -- in which the program has a meaning, the loop of vm_exec_module ends, in the machine that the
  -- program means, with the program counter behind the code.
  pub begin_pipe-module_loop :
      (tree : Node) (ctx : PipeContext) (vm vm' : Vm)
      → begin_pipe js tree ≡ done tt ctx
      → m.count ≡ length m.instructions
      → m.instructions ≡ loaded ctx.data_section.instructions
      → Listed h c m ctx.stable.strings
      → Evaluates h c m js tree vm vm'
      → Here h c m vm'
      → (fuel : ℕ) × (module_loop h fuel c (at 0 vm) ≡ ret tt (at m.count vm'))
  unfolding new_data_section
  begin_pipe-module_loop tree ctx vm vm' e counted holds listed means here =
      let r = begin_pipe-Emitted tree ctx counted e in
      let grew = r.grew in
      let stands : Stands h c m 0 r.code =
        loaded-Stands 0 r.code [] refl (holds ∙ ap loaded grew.code_is) in
      let last : 0 + length r.code ≡ m.count =
        omega (arith, counted, ap length (holds ∙ ap loaded grew.code_is), length-loaded r.code) in
      module_loop-Runs h c m (Runs-to h c m vm' last (r.performs stands listed vm vm' means)) here
        (omega arith)
