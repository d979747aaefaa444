-- ===== src/Compiler/Accepts/Decides/Jumps.antt =====
-- The walks that go back to an instruction find it: branches, loops and functions throw only where
-- their parts do.
use atomix_js.Prelude.{
  ap, sym, ℕ, ◌+◌, ◌≤◌, ◌<◌, Bool, Option, none, some, [], ◌∷◌, ◌&&◌, if◌then◌else◌, true, false,
  arith,
}
use atomix_js.Instruction.{Opcode}
use atomix_js.Compiler.Syntax.{Node, Nodes}
use atomix_js.Compiler.Sections.{constant_short}
use atomix_js.Compiler.Emit.{PipeContext, Pipe, ◌>>=◌, ◌>>◌, add, emit_short, replace, get_count}
use atomix_js.Compiler.Pipe.{replace_function, pipe_function}
use atomix_js.Compiler.Accepts.{all_identifiers, is_optional_name}
use atomix_js.Compiler.Accepts.Decides.{
  IsCounted, count_of, Settles, Settles-bind, Settles-last, Settles-then, Settles-replace, Decides,
  Decides-emit, Decides-when, &&-true, add-IsCounted, replace-IsCounted,
}
use atomix_js.Compiler.Accepts.Decides.Parts.{Decides-params, Decides-id}

Settles-function :
    {n : ℕ} (start end : ℕ) (idx : Option ℕ) (ctx : PipeContext)
    → IsCounted ctx
    → start < count_of ctx
    → n ≤ count_of ctx
    → Settles n true (replace_function start end idx ctx)
unfolding replace_function
Settles-function start end none ctx v l p = Settles-replace start _ _ ctx v l p
Settles-function start end (some idx) ctx v l p = Settles-replace start _ _ ctx v l p

pub Decides-function :
    {b : Bool} {body : Pipe (Unit {0})} (id : Node) (params : Nodes)
    → Decides b body
    → Decides (is_optional_name id && (all_identifiers params && b)) (pipe_function id params body)
unfolding pipe_function
Decides-function id params d = record {
  decides = λ ctx v.
      let a = add-IsCounted Opcode.op_nop [] ctx v in
      let i = Decides-id id in
      let p = Decides-params 0 params in
      Settles-then _ a.1 (
        Settles-bind (i.decides a.0 a.2) λ idx ctx2 v2 l2.
          Settles-bind (p.decides ctx2 v2) λ u ctx3 v3 l3.
            Settles-last (d.decides ctx3 v3) λ w ctx4 v4 l4.
              Settles-function (count_of ctx) (count_of ctx4) idx ctx4 v4 (omega (arith, a.3))
                (omega (arith, a.3)));
}

module _ {b c : Bool} {test consequent : Pipe (Unit {0})} (d : Decides b test)
    (e : Decides c consequent) where
  Decides-branch : Decides (b && c) (do
    test
    jump_to_else ← add Opcode.op_nop []
    consequent
    end ← get_count
    replace jump_to_else Opcode.op_jmp_f (constant_short end ∷ []))
  Decides-branch = record {
    decides = λ ctx v. Settles-bind (d.decides ctx v) λ u ctx1 v1 l1.
        let a = add-IsCounted Opcode.op_nop [] ctx1 v1 in
        Settles-then _ a.1 (
          Settles-last (e.decides a.0 a.2) λ w ctx2 v2 l2.
            Settles-replace (count_of ctx1) _ _ ctx2 v2 (omega (arith, a.3)) (omega (arith, a.3)));
  }

  Decides-branches :
      {x : Bool} {alternate : Pipe (Unit {0})}
      → Decides x alternate
      → Decides (b && (c && x)) (do
        test
        jump_to_else ← add Opcode.op_nop []
        consequent
        jump_to_end ← add Opcode.op_nop []
        replace jump_to_else Opcode.op_jmp_f (constant_short (jump_to_end + 1) ∷ [])
        alternate
        end ← get_count
        replace jump_to_end Opcode.op_jmp (constant_short end ∷ []))
  Decides-branches f = record {
    decides = λ ctx v. Settles-bind (d.decides ctx v) λ u ctx1 v1 l1.
        let a = add-IsCounted Opcode.op_nop [] ctx1 v1 in
        Settles-then _ a.1 (
          Settles-bind (e.decides a.0 a.2) λ w ctx2 v2 l2.
            let z = add-IsCounted Opcode.op_nop [] ctx2 v2 in
            let r =
              replace-IsCounted (count_of ctx1) Opcode.op_jmp_f
                (constant_short (count_of ctx2 + 1) ∷ []) z.0 z.2 (omega (arith, a.3, z.3)) in
            Settles-then _ z.1 (
              Settles-then _ r.1 (
                Settles-last (f.decides r.0 r.2) λ y ctx3 v3 l3.
                  Settles-replace (count_of ctx2) _ _ ctx3 v3 (omega (arith, a.3, z.3, r.3))
                    (omega (arith, a.3, z.3, r.3)))));
  }

  pub Decides-loop : Decides (b && c) (do
    start ← get_count
    test
    jump_to_end ← add Opcode.op_pop []
    consequent
    emit_short Opcode.op_jmp start
    end ← get_count
    replace jump_to_end Opcode.op_jmp_f (constant_short end ∷ []))
  Decides-loop = record {
    decides = λ ctx v. Settles-bind (d.decides ctx v) λ u ctx1 v1 l1.
        let a = add-IsCounted Opcode.op_pop [] ctx1 v1 in
        Settles-then _ a.1 (
          Settles-last (e.decides a.0 a.2) λ w ctx2 v2 l2.
            let j = Decides-emit Opcode.op_jmp (constant_short (count_of ctx) ∷ []) in
            Settles-last (j.decides ctx2 v2) λ y ctx3 v3 l3.
              Settles-replace (count_of ctx1) _ _ ctx3 v3 (omega (arith, a.3))
                (omega (arith, a.3)));
  }

pub Decides-if_statement :
    {b c d : Bool} {test consequent alternate : Pipe (Unit {0})} (x : Bool)
    → Decides b test
    → Decides c consequent
    → Decides d alternate
    → Decides (b && (c && (if x then true else d))) (do
      test
      jump_to_else ← add Opcode.op_nop []
      consequent
      if x
          then (do end ← get_count; replace jump_to_else Opcode.op_jmp_f (constant_short end ∷ []))
          else (do
            jump_to_end ← add Opcode.op_nop []
            replace jump_to_else Opcode.op_jmp_f (constant_short (jump_to_end + 1) ∷ [])
            alternate
            end ← get_count
            replace jump_to_end Opcode.op_jmp (constant_short end ∷ [])))
Decides-if_statement {b} {c} true d e f =
    Decides-when (Decides-branch d e) (ap (λ x. b && x) (sym (&&-true c)))
Decides-if_statement false d e f = Decides-branches d e f
