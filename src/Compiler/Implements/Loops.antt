-- ===== src/Compiler/Implements/Loops.antt =====
-- The walk over a loop, which knows the target of its exit when its body has been emitted.
use atomix_js.Prelude.{
  ℕ, ◌+◌, ◌≡◌, refl, sym, Bool, true, false, List, [], ◌∷◌, ◌++◌, Str, length, length-append,
  if◌then◌else◌, arith,
}
use mathlib.Core.Path.{subst}
use atomix_js.Instruction.{Opcode}
use atomix_js.Vm.{Vm, JsModule}
use atomix_js.Vm.Exec.{Host}
use atomix_js.Execution.Calls.{Calls}
use atomix_js.Execution.Steps.{at, Here, Tests, Runs, Runs-to, Runs-trans, jmp-Runs, jmp_f-Runs}
use atomix_js.Compiler.Sections.{constant_short, Instruction}
use atomix_js.Compiler.Emit.{Pipe, ◌>>=◌, ◌>>◌, add, emit_short, replace, get_count}
use atomix_js.Compiler.Growth.{
  Ensures-bind, Ensures-then, Ensures-done, Grew-trans, Grew-count, add-Grew, emit_with-Grew,
  replace-Grew,
}
use atomix_js.Compiler.Meaning.{Rel, Iterates, leave, again}
use atomix_js.Compiler.Implements.{
  AllShaped-append, Knows-Grew, Listed, Listed-Grew, Stands, Stands-at, Stands-front, Stands-back,
  Implements, Performs,
}
use atomix_js.Compiler.Implements.Jumps.{jump}

abbrev pop : Instruction
pop = record { opcode = Opcode.op_pop; operands = [] }

module _ (h : Host) (c : Calls) (m : JsModule) where
  -- A loop runs as its parts do: the test from `start` to `exit`, the body behind it to `back`.
  Iterates-Runs :
      (start exit back end : ℕ) {t b : Rel}
      → ((vm vm' : Vm) → t vm vm' → Runs h c m (at start vm) (at exit vm'))
      → ((f : Bool) (vm vm' : Vm)
          → Tests h c m f vm vm'
          → Runs h c m (at exit vm) (at (if f then end else exit + 1) vm'))
      → ((vm vm' : Vm) → b vm vm' → Runs h c m (at (exit + 1) vm) (at back vm'))
      → ((vm : Vm) → Here h c m vm → Runs h c m (at back vm) (at start vm))
      → {vm vm' : Vm} → Iterates h c m t b vm vm'
      → Runs h c m (at start vm) (at end vm')
  Iterates-Runs start exit back end test choose body jumps (leave e f) =
      Runs-trans h c m (test _ _ e) (choose true _ _ f)
  Iterates-Runs start exit back end test choose body jumps (again {next = n} e f g here rest) =
      Runs-trans h c m (test _ _ e) (
        Runs-trans h c m (choose false _ _ f) (
          Runs-trans h c m (body _ _ g) (
            Runs-trans h c m (jumps n here)
              (Iterates-Runs start exit back end test choose body jumps rest))))

  module _ (counted : m.count ≡ length m.instructions) where
    loop-Performs :
        (k : ℕ) (xs ys : List Instruction) (exit end : ℕ) {t b : Rel}
        → exit ≡ k + length xs
        → end ≡ exit + 1 + length ys + 1
        → Stands h c m k (xs ++ jump Opcode.op_jmp_f end ∷ (ys ++ jump Opcode.op_jmp k ∷ []))
        → (Stands h c m k xs → Performs h c m k xs t)
        → (Stands h c m (exit + 1) ys → Performs h c m (exit + 1) ys b)
        → Performs h c m k
            (xs ++ jump Opcode.op_jmp_f end ∷ (ys ++ jump Opcode.op_jmp k ∷ []))
            (Iterates h c m t b)
    loop-Performs k xs ys exit end e f s p q vm vm' i =
        let tail = jump Opcode.op_jmp_f end ∷ (ys ++ jump Opcode.op_jmp k ∷ []) in
        let rest = Stands-at h c m tail (sym e) (Stands-back h c m k xs tail s) in
        let front = Stands-front h c m k xs tail s in
        let inner = Stands-front h c m (exit + 1) ys (jump Opcode.op_jmp k ∷ []) rest.1 in
        let last = Stands-back h c m (exit + 1) ys (jump Opcode.op_jmp k ∷ []) rest.1 in
        Runs-to h c m vm'
          (omega (arith, length-append xs tail, length-append ys (jump Opcode.op_jmp k ∷ [])))
          (Iterates-Runs k exit (exit + 1 + length ys) end
            (λ v w a. Runs-to h c m w (sym e) (p front v w a))
            (λ b v w a. jmp_f-Runs h c m counted exit end b rest.0 a) (q inner)
            (λ v here. jmp-Runs h c m counted (exit + 1 + length ys) k v last.0 here) i)

    -- `while`
    pub Implements-Iterates :
        {known : List (ℕ × Str)} {test body : Pipe (Unit {0})} {t b : Rel}
        → Implements h c m known test t
        → Implements h c m known body b
        → Implements h c m known
            (do
              start ← get_count
              test
              jump_to_end ← add Opcode.op_pop []
              body
              emit_short Opcode.op_jmp start
              end ← get_count
              replace jump_to_end Opcode.op_jmp_f (constant_short end ∷ []))
            (Iterates h c m t b)
    Implements-Iterates {known} {t = t} {b} i j = record {
      implements = λ ctx v k.
          let start = ctx.data_section.count in
          Ensures-bind (i.implements ctx v k) λ u ctx1 e.
            let grew1 = e.grew in
            let a = add-Grew Opcode.op_pop [] ctx1 grew1.valid in
            let exit = ctx1.data_section.count in
            let grew2 = Grew-trans grew1 a.2 in
            Ensures-then _ a.1 (
              Ensures-bind (j.implements a.0 grew2.valid (Knows-Grew known grew2 k)) λ w ctx3 f.
                let grew3 = Grew-trans (a.2) f.grew in
                let d = emit_with-Grew Opcode.op_jmp (constant_short start ∷ []) ctx3 grew3.valid in
                let grew4 = Grew-trans grew1 (Grew-trans grew3 d.2) in
                let end = (d.0).data_section.count in
                let first : exit ≡ start + length e.code = Grew-count v grew1 in
                let entry : a.0.data_section.count ≡ exit + 1 = Grew-count grew1.valid a.2 in
                let last : end ≡ exit + 1 + length f.code + 1 =
                  let n = Grew-count grew1.valid (Grew-trans grew3 d.2) in
                  omega (arith, n, length-append f.code (jump Opcode.op_jmp start ∷ [])) in
                let z =
                  replace-Grew exit Opcode.op_jmp_f (constant_short end ∷ []) e.code
                    (f.code ++ jump Opcode.op_jmp start ∷ []) pop v grew4 first in
                Ensures-then _ d.1 (
                  Ensures-done z.1 (record {
                    code =
                        e.code
                        ++ jump Opcode.op_jmp_f end ∷ (f.code ++ jump Opcode.op_jmp start ∷ []);
                    grew = z.2;
                    shaped = AllShaped-append e.code _ e.shaped (
                      refl,
                      AllShaped-append f.code (jump Opcode.op_jmp start ∷ []) f.shaped (refl, tt),
                    );
                    performs = λ s l.
                        let listed4 : Listed h c m (d.0).stable.strings =
                          subst (λ t. Listed h c m t.strings) z.4 l in
                        let listed3 = Listed-Grew h c m d.2 listed4 in
                        let listed1 = Listed-Grew h c m grew3 listed3 in
                        loop-Performs start e.code f.code exit end first last s
                          (λ st. e.performs st listed1)
                          (subst (λ n. Stands h c m n f.code → Performs h c m n f.code b) entry
                            λ st. f.performs st listed3);
                  })));
    }
