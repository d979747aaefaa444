-- ===== src/Compiler/Implements/Functions.antt =====
-- The walk over a function, which knows the size of its body when it has been emitted. Its code grows
-- the sections and keeps them well formed; the body runs in calls, so it has no meaning in its place.
use atomix_js.Prelude.{
  ℕ, ◌+◌, ◌-◌, ◌≡◌, refl, Option, none, some, List, [], ◌∷◌, ◌++◌, Str, length, arith,
}
use atomix_js.Instruction.{Opcode}
use atomix_js.Vm.{JsModule}
use atomix_js.Vm.Exec.{Host}
use atomix_js.Execution.Calls.{Calls}
use atomix_js.Compiler.Syntax.{Node, Nodes}
use atomix_js.Compiler.Sections.{constant_short, Instruction}
use atomix_js.Compiler.Emit.{PipeContext, Pipe, pure, is_absent, name_of}
use atomix_js.Compiler.Pipe.{declare_params, register_id, replace_function, pipe_function}
use atomix_js.Compiler.Growth.{
  IsContext, Ensures, ends, throws, Ensures-bind, Ensures-mono, Ensures-then, Ensures-done, Grew,
  Grew-nothing, Grew-trans, add-Grew, register-Grew, replace-Grew,
}
use atomix_js.Compiler.Meaning.{Rel, Never}
use atomix_js.Compiler.Implements.{
  IsShaped, AllShaped-append, Implements, Implements-seq, Implements-nothing, Implements-throw,
}
use atomix_js.Compiler.Implements.Emits.{Implements-emit_short, Implements-emit_name}
use atomix_js.Compiler.Implements.Jumps.{nop}

abbrev GrewBy : List Instruction → PipeContext → Option ℕ → PipeContext → Type 0
GrewBy code ctx o ctx' = Grew code ctx ctx'

register_id-Grew :
    (id : Node) (ctx : PipeContext) → IsContext ctx → Ensures (GrewBy [] ctx) (register_id id ctx)
unfolding register_id is_absent name_of
register_id-Grew Node.absent ctx v = ends (Grew-nothing v)
register_id-Grew (Node.identifier name) ctx v =
    let r = register-Grew name ctx v in Ensures-then (λ idx. pure (some idx)) r.2 (ends r.3)
register_id-Grew _ ctx v = throws

-- The NOP that a function begins with is replaced by its declaration.
replace_function-Grew :
    (start end : ℕ) (idx : Option ℕ) (code : List Instruction) {ctx ctx1 : PipeContext}
    → IsContext ctx
    → Grew (nop ∷ code) ctx ctx1
    → start ≡ ctx.data_section.count
    → Ensures
        (λ _ ctx'. (new : Instruction) × IsShaped new × Grew (new ∷ code) ctx ctx')
        (replace_function start end idx ctx1)
unfolding replace_function
replace_function-Grew start end (some idx) code v g e =
    let operands = constant_short idx ∷ constant_short (end - start - 1) ∷ [] in
    let r = replace-Grew start Opcode.op_func_decl operands [] code nop v g (omega arith) in
    Ensures-done r.1 (record { opcode = Opcode.op_func_decl; operands = operands }, refl, r.2)
replace_function-Grew start end none code v g e =
    let operands = constant_short (end - start - 1) ∷ [] in
    let r = replace-Grew start Opcode.op_func_decl_e operands [] code nop v g (omega arith) in
    Ensures-done r.1 (record { opcode = Opcode.op_func_decl_e; operands = operands }, refl, r.2)

module _ (h : Host) (c : Calls) (m : JsModule) where
  pub Implements-never :
      {known : List (ℕ × Str)} {walk : Pipe (Unit {0})} {r : Rel}
      → Implements h c m known walk r
      → Implements h c m known walk Never
  Implements-never i = record {
    implements = λ ctx v k. Ensures-mono (i.implements ctx v k) λ a ctx' e. record {
      code = e.code;
      grew = e.grew;
      shaped = e.shaped;
      performs = λ s l vm vm' p. absurd p;
    };
  }

  module _ (counted : m.count ≡ length m.instructions) where
    Implements-params :
        (i : ℕ) (params : Nodes) → Implements h c m [] (declare_params i params) Never
    unfolding declare_params
    Implements-params i Nodes.nil = Implements-never (Implements-nothing h c m)
    Implements-params i (Nodes.cons (Node.identifier name) params) = Implements-never (
        Implements-seq h c m (Implements-emit_short h c m counted Opcode.op_load_arg refl (i + 1)) (
          Implements-seq h c m (Implements-emit_name h c m counted Opcode.op_alloc_local refl name)
            (Implements-params (i + 1) params)))
    Implements-params i (Nodes.cons _ params) = Implements-throw h c m _

    pub Implements-function :
        {body : Pipe (Unit {0})} {r : Rel} (id : Node) (params : Nodes)
        → Implements h c m [] body r
        → Implements h c m [] (pipe_function id params body) Never
    unfolding pipe_function
    Implements-function id params i = record {
      implements = λ ctx v k.
          let a = add-Grew Opcode.op_nop [] ctx v in
          let added = a.2 in
          let p = Implements-params 0 params in
          Ensures-then _ a.1 (
            Ensures-bind (register_id-Grew id a.0 added.valid) λ idx ctx2 g.
              Ensures-bind (p.implements ctx2 g.valid tt) λ u ctx3 e.
                let grew3 = e.grew in
                Ensures-bind (i.implements ctx3 grew3.valid tt) λ w ctx4 f.
                  Ensures-mono
                    (replace_function-Grew ctx.data_section.count ctx4.data_section.count idx
                      (e.code ++ f.code) v
                      (Grew-trans added (Grew-trans g (Grew-trans grew3 f.grew))) refl)
                    λ z ctx5 r. record {
                      code = r.0 ∷ (e.code ++ f.code);
                      grew = r.2;
                      shaped = (r.1, AllShaped-append e.code f.code e.shaped f.shaped);
                      performs = λ s l vm vm' q. absurd q;
                    });
    }
