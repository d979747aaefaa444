-- ===== src/Compiler/Implements/Emits.antt =====
-- The walks that emit one instruction, with a number or with a name.
use atomix_js.Prelude.{
  ℕ, ◌≡◌, refl, ap, sym, Bool, true, false, some, List, [], ◌∷◌, Str, length, get_elem?,
  if◌then◌else◌, arith,
}
use mathlib.Core.Path.{subst}
use atomix_js.Instruction.{Opcode}
use atomix_js.Loader.Code.{Shape}
use atomix_js.Vm.{Vm, JsModule}
use atomix_js.Vm.Exec.{Host}
use atomix_js.Execution.Calls.{Calls}
use atomix_js.Execution.Steps.{Does, Does-Runs}
use atomix_js.Compiler.Sections.{Operand, constant_short}
use atomix_js.Compiler.Emit.{
  PipeContext, done, Pipe, pure, ◌>>=◌, register, add, emit, emit_with, emit_short, emit_name,
  is_absent, is_function_declaration,
}
use atomix_js.Compiler.Growth.{
  IsContext, Ensures, ends, Ensures-mono, Ensures-then, Grew, Grew-trans, Grew-count, add-Grew,
  register-Grew,
}
use atomix_js.Compiler.Meaning.{Rel, When, Effect, Named, Optional, Dropped}
use atomix_js.Compiler.Syntax.{Node}
use atomix_js.Compiler.Implements.{
  to_inst, kind, has_shape, Knows, Knows-Grew, Listed, Stands-at, Emitted, Implements,
  Implements-nothing, Performs,
}

module _ (h : Host) (c : Calls) (m : JsModule) (counted : m.count ≡ length m.instructions) where
  -- What the instruction that has been emitted does may depend on the names that are known.
  emit_with-Emitted :
      {r : Rel} (opcode : Opcode) (operands : List Operand) (ctx : PipeContext)
      → has_shape (kind opcode) operands ≡ true
      → IsContext ctx
      → ((ctx' : PipeContext)
          → add opcode operands ctx ≡ done ctx.data_section.count ctx'
          → (r' : Grew (record { opcode = opcode; operands = operands } ∷ []) ctx ctx')
          → Listed h c m ctx'.stable.strings
          → (vm vm' : Vm) → r vm vm'
          → Does h c m (to_inst (record { opcode = opcode; operands = operands })) vm vm')
      → Ensures (λ _ ctx'. Emitted h c m r ctx ctx') (emit_with opcode operands ctx)
  unfolding emit_with
  emit_with-Emitted opcode operands ctx ok v means =
      let r = add-Grew opcode operands ctx v in
      Ensures-then (λ idx. pure tt) r.1
        (ends (record {
          code = record { opcode = opcode; operands = operands } ∷ [];
          grew = r.2;
          shaped = (ok, tt);
          performs = λ s l vm vm' p.
              Does-Runs h c m counted ctx.data_section.count
                (to_inst (record { opcode = opcode; operands = operands })) s.0
                (means r.0 r.1 r.2 l vm vm' p);
        }))

  pub Implements-emit_with :
      {known : List (ℕ × Str)} (opcode : Opcode) (operands : List Operand)
      → has_shape (kind opcode) operands ≡ true
      → Implements h c m known
          (emit_with opcode operands)
          (Does h c m (to_inst (record { opcode = opcode; operands = operands })))
  Implements-emit_with opcode operands ok = record {
    implements = λ ctx v k. emit_with-Emitted opcode operands ctx ok v λ ctx' e g l vm vm' p. p;
  }

  pub Implements-emit :
      {known : List (ℕ × Str)} (opcode : Opcode)
      → kind opcode ≡ Shape.plain
      → Implements h c m known (emit opcode) (Effect h c m opcode 0)
  Implements-emit opcode e = Implements-emit_with opcode [] (ap (λ k. has_shape k []) e)

  pub Implements-emit_short :
      {known : List (ℕ × Str)} (opcode : Opcode)
      → kind opcode ≡ Shape.uint16
      → (x : ℕ) → Implements h c m known (emit_short opcode x) (Effect h c m opcode x)
  Implements-emit_short opcode e x =
      Implements-emit_with opcode (constant_short x ∷ [])
        (ap (λ k. has_shape k (constant_short x ∷ [])) e)

  -- An instruction with the index of a name that is known.
  pub Implements-known :
      {known : List (ℕ × Str)} (opcode : Opcode)
      → kind opcode ≡ Shape.uint16
      → (name : Str) (idx : ℕ)
      → ((strings : List Str) → Knows known strings → get_elem? strings idx ≡ some name)
      → Implements h c m known (emit_short opcode idx) (Named h c m opcode name)
  Implements-known {known} opcode e name idx has = record {
    implements = λ ctx v k.
        emit_with-Emitted opcode (constant_short idx ∷ []) ctx
          (ap (λ k. has_shape k (constant_short idx ∷ [])) e) v
          λ ctx' a g l vm vm' p.
            p idx (l idx name (has ctx'.stable.strings (Knows-Grew known g k)));
  }

  pub Implements-register :
      {known : List (ℕ × Str)} {r : Rel} (name : Str) (walk : ℕ → Pipe (Unit {0}))
      → ((idx : ℕ) → Implements h c m ((idx, name) ∷ known) (walk idx) r)
      → Implements h c m known (register name >>= walk) r
  Implements-register {known} {r = q} name walk i = record {
    implements = λ ctx v k.
        let r = register-Grew name ctx v in
        let grew = r.3 in
        let rest = i r.1 in
        Ensures-then walk r.2 (
          Ensures-mono (rest.implements r.0 grew.valid (r.4, Knows-Grew known grew k)) λ a ctx2 e.
            let n : r.0.data_section.count ≡ ctx.data_section.count =
              let l = Grew-count v grew in omega arith in
            record {
              code = e.code;
              grew = Grew-trans grew e.grew;
              shaped = e.shaped;
              performs = λ s l.
                  subst (λ k. Performs h c m k e.code q) n
                    (e.performs (Stands-at h c m e.code (sym n) s) l);
            });
  }

  pub Implements-emit_name :
      {known : List (ℕ × Str)} (opcode : Opcode)
      → kind opcode ≡ Shape.uint16
      → (name : Str) → Implements h c m known (emit_name opcode name) (Named h c m opcode name)
  Implements-emit_name opcode e name =
      Implements-register name (λ idx. emit_short opcode idx)
        λ idx. Implements-known opcode e name idx λ strings k. k.0

  pub Implements-when :
      {known : List (ℕ × Str)} {walk : Pipe (Unit {0})} {r : Rel} (b : Bool)
      → Implements h c m known walk r
      → Implements h c m known (if b then walk else pure tt) (When h c m b r)
  Implements-when true i = i
  Implements-when false i = Implements-nothing h c m

  pub Implements-if :
      {known : List (ℕ × Str)} {walk other : Pipe (Unit {0})} {r q : Rel} (b : Bool)
      → Implements h c m known walk r
      → Implements h c m known other q
      → Implements h c m known (if b then walk else other) (if b then r else q)
  Implements-if true i j = i
  Implements-if false i j = j

  pub Implements-optional :
      {known : List (ℕ × Str)} {missing present : Pipe (Unit {0})} {r q : Rel} (n : Node)
      → Implements h c m known missing r
      → Implements h c m known present q
      → Implements h c m known (if is_absent n then missing else present) (Optional h c m n r q)
  unfolding is_absent
  Implements-optional Node.absent i j = i
  Implements-optional _ i j = j

  pub Implements-dropped :
      {known : List (ℕ × Str)} (n : Node)
      → Implements h c m known
          (if is_function_declaration n then emit Opcode.op_pop else pure tt)
          (Dropped h c m n)
  unfolding is_function_declaration
  Implements-dropped (Node.function_declaration id params body) = Implements-emit Opcode.op_pop refl
  Implements-dropped _ = Implements-nothing h c m
