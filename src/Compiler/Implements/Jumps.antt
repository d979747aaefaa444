-- ===== src/Compiler/Implements/Jumps.antt =====
-- The walks that emit an instruction for a jump first and replace it when its target is known.
use atomix_js.Prelude.{
  ℕ, ◌+◌, ◌≡◌, refl, ap, ◌∙◌, sym, Bool, true, false, some, List, [], ◌∷◌, ◌++◌, Str, length,
  length-append, get_elem?, if◌then◌else◌, arith,
}
use mathlib.Core.Path.{subst}
use mathlib.Core.List.{append_assoc}
use atomix_js.Instruction.{Opcode}
use atomix_js.Vm.{Vm, JsModule}
use atomix_js.Vm.Exec.{Host}
use atomix_js.Execution.Calls.{Calls}
use atomix_js.Execution.Steps.{at, Here, Tests, Runs, Runs-to, Runs-trans, jmp-Runs, jmp_f-Runs}
use atomix_js.Compiler.Sections.{constant_short, Instruction}
use atomix_js.Compiler.Emit.{PipeContext, Pipe, ◌>>=◌, ◌>>◌, add, replace, get_count, is_absent}
use atomix_js.Compiler.Growth.{
  IsContext, Ensures, Ensures-bind, Ensures-mono, Ensures-then, Ensures-done, Grew, Grew-trans,
  Grew-count, add-Grew, replace-Grew,
}
use atomix_js.Compiler.Meaning.{Rel, ◌⨾◌, Same, Optional, Branches}
use atomix_js.Compiler.Syntax.{Node}
use atomix_js.Compiler.Implements.{
  AllShaped-append, Knows, Knows-Grew, Listed, Listed-Grew, Stands, Stands-at, Stands-front,
  Stands-back, Emitted, Emitted-trans, Implements, Performs,
}

abbrev pub nop : Instruction
nop = record { opcode = Opcode.op_nop; operands = [] }

abbrev pub jump : Opcode → ℕ → Instruction
jump opcode target = record { opcode = opcode; operands = constant_short target ∷ [] }

-- The walk that follows the test of `if` where it has no `else`.
abbrev pub jump_over : Pipe (Unit {0}) → Pipe (Unit {0})
jump_over consequent = do
  jump_to_else ← add Opcode.op_nop []
  consequent
  end ← get_count
  replace jump_to_else Opcode.op_jmp_f (constant_short end ∷ [])

-- The walk where it has one.
abbrev pub jump_between : Pipe (Unit {0}) → Pipe (Unit {0}) → Pipe (Unit {0})
jump_between consequent alternate = do
  jump_to_else ← add Opcode.op_nop []
  consequent
  jump_to_end ← add Opcode.op_nop []
  replace jump_to_else Opcode.op_jmp_f (constant_short (jump_to_end + 1) ∷ [])
  alternate
  end ← get_count
  replace jump_to_end Opcode.op_jmp (constant_short end ∷ [])

module _ (h : Host) (c : Calls) (m : JsModule) where
  -- A test that has been evaluated, and the part that it chooses.
  abbrev Chooses : Rel → Rel → Rel
  Chooses consequent alternate vm vm' =
      (is_falsy : Bool) × (chosen : Vm) × Tests h c m is_falsy vm chosen
      × (if is_falsy then alternate chosen vm' else (consequent chosen vm' × Here h c m vm'))

  module _ (counted : m.count ≡ length m.instructions) where
    over-Performs :
        (k end : ℕ) (code : List Instruction) {r : Rel}
        → end ≡ k + 1 + length code
        → get_elem? m.instructions k
          ≡ some (some (record { opcode = Opcode.op_jmp_f; operand = end; operand2 = 0 }))
        → Performs h c m (k + 1) code r
        → Performs h c m k (jump Opcode.op_jmp_f end ∷ code) (Chooses r Same)
    over-Performs k end code e found p vm vm' (true, chosen, t, s) =
        Runs-to h c m vm' (omega arith) (
          subst (λ v. Runs h c m (at k vm) (at end v)) s
            (jmp_f-Runs h c m counted k end true found t))
    over-Performs k end code e found p vm vm' (false, chosen, t, s) =
        Runs-to h c m vm' (omega arith)
          (Runs-trans h c m (jmp_f-Runs h c m counted k end false found t) (p chosen vm' s.0))

    jump_over-Emitted :
        {known : List (ℕ × Str)} {walk : Pipe (Unit {0})} {r : Rel} (ctx : PipeContext)
        → IsContext ctx
        → Knows known ctx.stable.strings
        → Implements h c m known walk r
        → Ensures (λ _ ctx'. Emitted h c m (Chooses r Same) ctx ctx') (jump_over walk ctx)
    jump_over-Emitted {known} {r = r} ctx v k i =
        let a = add-Grew Opcode.op_nop [] ctx v in
        let added = a.2 in
        let start = ctx.data_section.count in
        Ensures-then _ a.1 (
          Ensures-bind (i.implements a.0 added.valid (Knows-Grew known added k)) λ u ctx3 e.
            let grew = Grew-trans added e.grew in
            let end = ctx3.data_section.count in
            let p =
              replace-Grew start Opcode.op_jmp_f (constant_short end ∷ []) [] e.code nop v grew
                (omega arith) in
            let first : a.0.data_section.count ≡ start + 1 = Grew-count v added in
            let last : end ≡ start + 1 + length e.code = let n = Grew-count v grew in omega arith in
            Ensures-done p.1 (record {
              code = jump Opcode.op_jmp_f end ∷ e.code;
              grew = p.2;
              shaped = (refl, e.shaped);
              performs = λ s l. over-Performs start end e.code last s.0 (
                  subst (λ n. Performs h c m n e.code r) first
                    (e.performs (Stands-at h c m e.code (sym first) s.1)
                      (subst (λ t. Listed h c m t.strings) p.4 l)));
            }))

    between-Performs :
        (k : ℕ) (xs ys : List Instruction) (middle end : ℕ) {r q : Rel}
        → middle ≡ k + 1 + length xs
        → end ≡ middle + 1 + length ys
        → Stands h c m k (jump Opcode.op_jmp_f (middle + 1) ∷ (xs ++ jump Opcode.op_jmp end ∷ ys))
        → (Stands h c m (k + 1) xs → Performs h c m (k + 1) xs r)
        → (Stands h c m (middle + 1) ys → Performs h c m (middle + 1) ys q)
        → Performs h c m k
            (jump Opcode.op_jmp_f (middle + 1) ∷ (xs ++ jump Opcode.op_jmp end ∷ ys))
            (Chooses r q)
    between-Performs k xs ys middle end e f s p o vm vm' (true, chosen, t, g) =
        let rest = Stands-back h c m (k + 1) xs (jump Opcode.op_jmp end ∷ ys) s.1 in
        Runs-to h c m vm' (omega (arith, length-append xs (jump Opcode.op_jmp end ∷ ys))) (
          Runs-trans h c m (jmp_f-Runs h c m counted k (middle + 1) true s.0 t)
            (o (Stands-at h c m ys (omega arith) rest.1) chosen vm' g))
    between-Performs k xs ys middle end e f s p o vm vm' (false, chosen, t, g) =
        let rest = Stands-back h c m (k + 1) xs (jump Opcode.op_jmp end ∷ ys) s.1 in
        let here : get_elem? m.instructions middle
            ≡ some (some (record { opcode = Opcode.op_jmp; operand = end; operand2 = 0 })) =
          ap (get_elem? m.instructions) e ∙ rest.0 in
        Runs-to h c m vm' (omega (arith, length-append xs (jump Opcode.op_jmp end ∷ ys))) (
          Runs-trans h c m (jmp_f-Runs h c m counted k (middle + 1) false s.0 t) (
            Runs-trans h c m
              (Runs-to h c m vm' (sym e) (
                p (Stands-front h c m (k + 1) xs (jump Opcode.op_jmp end ∷ ys) s.1) chosen vm' g.0))
              (jmp-Runs h c m counted middle end vm' here g.1)))

    jump_between-Emitted :
        {known : List (ℕ × Str)} {walk other : Pipe (Unit {0})} {r q : Rel} (ctx : PipeContext)
        → IsContext ctx
        → Knows known ctx.stable.strings
        → Implements h c m known walk r
        → Implements h c m known other q
        → Ensures (λ _ ctx'. Emitted h c m (Chooses r q) ctx ctx') (jump_between walk other ctx)
    jump_between-Emitted {known} {r = r} {q} ctx v k i j =
        let a = add-Grew Opcode.op_nop [] ctx v in
        let added = a.2 in
        let start = ctx.data_section.count in
        Ensures-then _ a.1 (
          Ensures-bind (i.implements a.0 added.valid (Knows-Grew known added k)) λ u ctx3 e.
            let grew3 = Grew-trans added e.grew in
            let b = add-Grew Opcode.op_nop [] ctx3 grew3.valid in
            let grew4 = Grew-trans grew3 b.2 in
            let middle = ctx3.data_section.count in
            let p =
              replace-Grew start Opcode.op_jmp_f (constant_short (middle + 1) ∷ []) []
                (e.code ++ nop ∷ []) nop v grew4 (omega arith) in
            let grew5 = p.2 in
            Ensures-then _ b.1 (
              Ensures-then _ p.1 (
                Ensures-bind (j.implements p.0 grew5.valid (Knows-Grew known grew5 k)) λ w ctx6 f.
                  let grew6 = Grew-trans grew5 f.grew in
                  let end = ctx6.data_section.count in
                  let first : a.0.data_section.count ≡ start + 1 = Grew-count v added in
                  let second : middle ≡ start + 1 + length e.code =
                    let n = Grew-count v grew3 in omega arith in
                  let third : p.0.data_section.count ≡ middle + 1 =
                    p.3 ∙ Grew-count grew3.valid b.2 in
                  let last : end ≡ middle + 1 + length f.code =
                    Grew-count grew5.valid f.grew ∙ ap (λ n. n + length f.code) third in
                  let z =
                    replace-Grew middle Opcode.op_jmp (constant_short end ∷ [])
                      (jump Opcode.op_jmp_f (middle + 1) ∷ e.code) f.code nop v
                      (subst (λ l. Grew (jump Opcode.op_jmp_f (middle + 1) ∷ l) ctx ctx6)
                        (append_assoc e.code (nop ∷ []) f.code) grew6)
                      (omega arith) in
                  Ensures-done z.1 (record {
                    code =
                        jump Opcode.op_jmp_f (middle + 1)
                        ∷ (e.code ++ jump Opcode.op_jmp end ∷ f.code);
                    grew = z.2;
                    shaped = (
                      refl,
                      AllShaped-append e.code (jump Opcode.op_jmp end ∷ f.code) e.shaped
                          (refl, f.shaped),
                    );
                    performs = λ s l.
                        let listed6 : Listed h c m ctx6.stable.strings =
                          subst (λ t. Listed h c m t.strings) z.4 l in
                        let listed5 = Listed-Grew h c m f.grew listed6 in
                        let listed3 =
                          Listed-Grew h c m b.2 (subst (λ t. Listed h c m t.strings) p.4 listed5) in
                        between-Performs start e.code f.code middle end second last s
                          (subst (λ n. Stands h c m n e.code → Performs h c m n e.code r) first
                            λ st. e.performs st listed3)
                          (subst (λ n. Stands h c m n f.code → Performs h c m n f.code q) third
                            λ st. f.performs st listed6);
                  }))))

    to_Branches :
        {test consequent alternate : Rel} {ctx ctx' : PipeContext}
        → Emitted h c m (test ⨾ Chooses consequent alternate) ctx ctx'
        → Emitted h c m (Branches h c m test consequent alternate) ctx ctx'
    to_Branches e = record {
      code = e.code;
      grew = e.grew;
      shaped = e.shaped;
      performs = λ s l vm vm' b.
          e.performs s l vm vm' (b.tested, b.test_is, (b.is_falsy, b.chosen, b.chooses, b.ends));
    }

    -- `if`, with and without `else`.
    pub Implements-Branches :
        {known : List (ℕ × Str)} {test consequent alternate : Pipe (Unit {0})} {t r q : Rel}
        (last : Node)
        → Implements h c m known test t
        → Implements h c m known consequent r
        → Implements h c m known alternate q
        → Implements h c m known
            (do
              test
              jump_to_else ← add Opcode.op_nop []
              consequent
              if is_absent last
                  then (do
                    end ← get_count
                    replace jump_to_else Opcode.op_jmp_f (constant_short end ∷ []))
                  else (do
                    jump_to_end ← add Opcode.op_nop []
                    replace jump_to_else Opcode.op_jmp_f (constant_short (jump_to_end + 1) ∷ [])
                    alternate
                    end ← get_count
                    replace jump_to_end Opcode.op_jmp (constant_short end ∷ [])))
            (Branches h c m t r (Optional h c m last Same q))
    unfolding is_absent
    Implements-Branches {known} Node.absent i j o = record {
      implements = λ ctx v k. Ensures-bind (i.implements ctx v k) λ u ctx1 e.
          let grew = e.grew in
          Ensures-mono (jump_over-Emitted ctx1 grew.valid (Knows-Grew known grew k) j)
            λ w ctx2 f. to_Branches (Emitted-trans h c m v e f);
    }
    Implements-Branches {known} _ i j o = record {
      implements = λ ctx v k. Ensures-bind (i.implements ctx v k) λ u ctx1 e.
          let grew = e.grew in
          Ensures-mono (jump_between-Emitted ctx1 grew.valid (Knows-Grew known grew k) j o)
            λ w ctx2 f. to_Branches (Emitted-trans h c m v e f);
    }
