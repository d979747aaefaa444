-- ===== src/Compiler/Growth.antt =====
-- How the sections of a module grow while atomixc walks over a tree.
use atomix_js.Prelude.{
  ℕ, zero, suc, ◌+◌, ◌≡◌, refl, ap, ◌∙◌, sym, some, List, [], ◌∷◌, ◌++◌, Str, length, length-append,
  get_elem?, set, arith,
}
use mathlib.Core.Path.{subst}
use mathlib.Core.List.{append-nil, append_assoc}
use atomix_js.Instruction.{Opcode}
use atomix_js.Compiler.Sections.{Operand, Instruction, add_instruction, register_string}
use atomix_js.Compiler.Sections.Valid.{IsData, add_instruction-IsData, replace_instruction-IsData}
use atomix_js.Compiler.Sections.Strings.{
  IsStable, register_string-Registered, get_elem?-append_here,
}
use atomix_js.Compiler.Emit.{
  Thrown, PipeContext, Piped, done, thrown, Pipe, then_pipe, pure, register, add, emit_with,
  replace,
}

pub record IsContext (ctx : PipeContext) : Type 0 where
  pub data_valid : IsData ctx.data_section
  pub stable_valid : IsStable ctx.stable

-- A walk that does not throw ends with a property.
pub data Ensures {A : Type 0} (Q : A → PipeContext → Type 0) : Piped A → Type 0 where
  ends : {a : A} {ctx : PipeContext} → Q a ctx → Ensures Q (done a ctx)
  throws : {e : Thrown} → Ensures Q (thrown e)

module _ {A B : Type 0} {P : A → PipeContext → Type 0} {Q : B → PipeContext → Type 0} where
  pub Ensures-bind :
      {r : Piped A} {k : A → Pipe B}
      → Ensures P r
      → ((a : A) (ctx : PipeContext) → P a ctx → Ensures Q (k a ctx))
      → Ensures Q (then_pipe r k)
  Ensures-bind (ends p) f = f _ _ p
  Ensures-bind throws f = throws

module _ {A : Type 0} {P Q : A → PipeContext → Type 0} where
  pub Ensures-mono :
      {r : Piped A} → Ensures P r → ((a : A) (ctx : PipeContext) → P a ctx → Q a ctx) → Ensures Q r
  Ensures-mono (ends p) f = ends (f _ _ p)
  Ensures-mono throws f = throws

module _ {A B : Type 0} {Q : B → PipeContext → Type 0} where
  -- A step with a known result.
  pub Ensures-then :
      {r : Piped A} (k : A → Pipe B) {a : A} {ctx : PipeContext}
      → r ≡ done a ctx
      → Ensures Q (k a ctx)
      → Ensures Q (then_pipe r k)
  Ensures-then k e q = subst (λ r. Ensures Q (then_pipe r k)) (sym e) q

pub Ensures-done :
    {A : Type 0} {Q : A → PipeContext → Type 0} {r : Piped A} {a : A} {ctx : PipeContext}
    → r ≡ done a ctx
    → Q a ctx
    → Ensures Q r
Ensures-done {Q = Q} e q = subst (Ensures Q) (sym e) (ends q)

-- The sections have grown by instructions and names, and are well formed.
pub record Grew (code : List Instruction) (ctx ctx' : PipeContext) : Type 0 where
  pub code_is : ctx'.data_section.instructions ≡ ctx.data_section.instructions ++ code
  pub names : List Str
  pub names_are : ctx'.stable.strings ≡ ctx.stable.strings ++ names
  pub valid : IsContext ctx'

pub Grew-nothing : {ctx : PipeContext} → IsContext ctx → Grew [] ctx ctx
Grew-nothing {ctx} v = record {
  code_is = sym (append-nil ctx.data_section.instructions);
  names = [];
  names_are = sym (append-nil ctx.stable.strings);
  valid = v;
}

pub Grew-trans :
    {xs ys : List Instruction} {ctx ctx1 ctx2 : PipeContext}
    → Grew xs ctx ctx1
    → Grew ys ctx1 ctx2
    → Grew (xs ++ ys) ctx ctx2
Grew-trans {xs} {ys} {ctx} g k = record {
  code_is =
      k.code_is ∙ ap (λ l. l ++ ys) g.code_is ∙ append_assoc ctx.data_section.instructions xs ys;
  names = g.names ++ k.names;
  names_are =
      k.names_are
      ∙ ap (λ l. l ++ k.names) g.names_are
      ∙ append_assoc ctx.stable.strings g.names k.names;
  valid = k.valid;
}

-- The count behind the code.
pub Grew-count :
    {code : List Instruction} {ctx ctx' : PipeContext}
    → IsContext ctx
    → Grew code ctx ctx'
    → ctx'.data_section.count ≡ ctx.data_section.count + length code
Grew-count {code} {ctx} v g =
    let grown = g.valid in
    let l = length-append ctx.data_section.instructions code in
    let e = ap length g.code_is in omega (arith, v.data_valid.counted, grown.data_valid.counted)

pub add-Grew :
    (opcode : Opcode) (operands : List Operand) (ctx : PipeContext)
    → IsContext ctx
    → (ctx' : PipeContext) × (add opcode operands ctx ≡ done ctx.data_section.count ctx')
      × Grew (record { opcode = opcode; operands = operands } ∷ []) ctx ctx'
unfolding add add_instruction
add-Grew opcode operands ctx v =
    let i : Instruction = record { opcode = opcode; operands = operands } in
    (
      record ctx { data_section = (add_instruction i ctx.data_section).0 },
      refl,
      record {
        code_is = refl;
        names = [];
        names_are = sym (append-nil ctx.stable.strings);
        valid = record {
          data_valid = add_instruction-IsData i ctx.data_section v.data_valid;
          stable_valid = v.stable_valid;
        };
      },
    )

pub emit_with-Grew :
    (opcode : Opcode) (operands : List Operand) (ctx : PipeContext)
    → IsContext ctx
    → (ctx' : PipeContext) × (emit_with opcode operands ctx ≡ done tt ctx')
      × Grew (record { opcode = opcode; operands = operands } ∷ []) ctx ctx'
unfolding emit_with
emit_with-Grew opcode operands ctx v =
    let r = add-Grew opcode operands ctx v in (r.0, ap (λ p. then_pipe p (λ idx. pure tt)) r.1, r.2)

pub register-Grew :
    (x : Str) (ctx : PipeContext)
    → IsContext ctx
    → (ctx' : PipeContext) × (idx : ℕ) × (register x ctx ≡ done idx ctx')
      × Grew [] ctx ctx'
      × (get_elem? ctx'.stable.strings idx ≡ some x)
unfolding register
register-Grew x ctx v =
    let r = register_string-Registered x ctx.stable v.stable_valid in
    (
      record ctx { stable = (register_string x ctx.stable).0 },
      (register_string x ctx.stable).1,
      refl,
      record {
        code_is = sym (append-nil ctx.data_section.instructions);
        names = r.added;
        names_are = r.strings_are;
        valid = record { data_valid = v.data_valid; stable_valid = r.valid };
      },
      r.at,
    )

set_behind :
    (xs ys : List Instruction) (old new : Instruction) (n : ℕ)
    → n ≡ length xs
    → set (xs ++ old ∷ ys) n new ≡ xs ++ new ∷ ys
set_behind [] ys old new zero e = refl
set_behind [] ys old new (suc n) e = absurd (omega arith)
set_behind (x ∷ xs) ys old new zero e = absurd (omega arith)
set_behind (x ∷ xs) ys old new (suc n) e =
    ap (λ l. x ∷ l) (set_behind xs ys old new n (omega arith))

-- The instruction behind `xs` is replaced.
pub replace-Grew :
    (index : ℕ) (opcode : Opcode) (operands : List Operand) (xs ys : List Instruction)
    (old : Instruction) {ctx ctx1 : PipeContext}
    → IsContext ctx
    → Grew (xs ++ old ∷ ys) ctx ctx1
    → index ≡ ctx.data_section.count + length xs
    → (ctx2 : PipeContext) × (replace index opcode operands ctx1 ≡ done tt ctx2)
      × Grew (xs ++ record { opcode = opcode; operands = operands } ∷ ys) ctx ctx2
      × (ctx2.data_section.count ≡ ctx1.data_section.count)
      × (ctx2.stable ≡ ctx1.stable)
unfolding replace
replace-Grew index opcode operands xs ys old {ctx} {ctx1} v g e =
    let grown = g.valid in
    let i : Instruction = record { opcode = opcode; operands = operands } in
    let front = ctx.data_section.instructions in
    let split : ctx1.data_section.instructions ≡ (front ++ xs) ++ old ∷ ys =
      g.code_is ∙ sym (append_assoc front xs (old ∷ ys)) in
    let n : index ≡ length (front ++ xs) =
      omega (arith, e, length-append front xs, v.data_valid.counted) in
    let r =
      replace_instruction-IsData index i old ctx1.data_section grown.data_valid
        (ap (λ l. get_elem? l index) split ∙ get_elem?-append_here (front ++ xs) ys old index n) in
    (
      record ctx1 { data_section = r.0 },
      rw (r.1, replace) refl,
      record {
        code_is =
            r.2
            ∙ ap (λ l. set l index i) split
            ∙ set_behind (front ++ xs) ys old i index n
            ∙ append_assoc front xs (i ∷ ys);
        names = g.names;
        names_are = g.names_are;
        valid = record { data_valid = r.4; stable_valid = grown.stable_valid };
      },
      r.3,
      refl,
    )
