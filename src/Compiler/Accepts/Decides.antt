-- ===== src/Compiler/Accepts/Decides.antt =====
-- Walks that end or throw as a Boolean says, in whatever sections they start.
pub mod Parts
pub mod Jumps
use atomix_js.Prelude.{
  ℕ, ◌+◌, ◌≤◌, ◌<◌, ◌≡◌, refl, ap, ◌∙◌, sym, Bool, true, false, some, List, [], ◌∷◌, ◌++◌, ◌&&◌,
  Str, length, length-append, length-set, get_elem?, get_elem?-lt, set, if◌then◌else◌, arith,
}
use mathlib.Core.Path.{subst}
use atomix_js.Instruction.{Opcode}
use atomix_js.Compiler.Sections.{Operand, Instruction, add_instruction, replace_instruction}
use atomix_js.Compiler.Emit.{
  Thrown, PipeContext, Piped, done, thrown, Pipe, ◌>>=◌, ◌>>◌, then_pipe, pure, throw, register,
  add, emit_with, emit_name, replace,
}

pub record IsCounted (ctx : PipeContext) : Type 0 where
  pub counted : ctx.data_section.count ≡ length ctx.data_section.instructions

abbrev pub count_of : PipeContext → ℕ
count_of ctx = ctx.data_section.count

-- The walk ends, with a count of at least `n`, or it throws.
pub data Settles {A : Type 0} (n : ℕ) : Bool → Piped A → Type 0 where
  finishes :
      {a : A} {ctx : PipeContext} → IsCounted ctx → n ≤ count_of ctx → Settles n true (done a ctx)
  refuses : {e : Thrown} → Settles n false (thrown e)

pub record Decides {A : Type 0} (b : Bool) (walk : Pipe A) : Type 0 where
  pub decides : (ctx : PipeContext) → IsCounted ctx → Settles (count_of ctx) b (walk ctx)

module _ {A B : Type 0} {n k : ℕ} {c : Bool} {walk : A → Pipe B} where
  pub Settles-bind :
      {b : Bool} {r : Piped A}
      → Settles n b r
      → ((a : A) (ctx : PipeContext) → IsCounted ctx → n ≤ count_of ctx → Settles k c (walk a ctx))
      → Settles k (b && c) (then_pipe r walk)
  Settles-bind (finishes v l) f = f _ _ v l
  Settles-bind refuses f = refuses

module _ {A : Type 0} where
  pub Settles-lower : {n k : ℕ} {b : Bool} {r : Piped A} → Settles k b r → n ≤ k → Settles n b r
  Settles-lower (finishes v l) p = finishes v (omega arith)
  Settles-lower refuses p = refuses

-- Another way to say when.
pub Decides-when :
    {A : Type 0} {b c : Bool} {walk : Pipe A} → Decides b walk → b ≡ c → Decides c walk
Decides-when {walk = walk} d e = subst (λ x. Decides x walk) e d

module _ {A B : Type 0} {b c : Bool} {m : Pipe A} {walk : A → Pipe B} where
  pub Decides-bind : Decides b m → ((a : A) → Decides c (walk a)) → Decides (b && c) (m >>= walk)
  Decides-bind d f = record {
    decides = λ ctx v.
        Settles-bind (d.decides ctx v)
          λ a ctx' v' l. let g = f a in Settles-lower (g.decides ctx' v') l;
  }

module _ {B : Type 0} {b c : Bool} {m : Pipe (Unit {0})} {walk : Pipe B} where
  pub Decides-seq : Decides b m → Decides c walk → Decides (b && c) (m >> walk)
  Decides-seq d e = Decides-bind d λ u. e

pub &&-true : (b : Bool) → b && true ≡ b
&&-true true = refl
&&-true false = refl

module _ {B : Type 0} {b : Bool} {m : Pipe (Unit {0})} {walk : Pipe B} where
  pub Decides-last : Decides b m → Decides true walk → Decides b (m >> walk)
  Decides-last d e = Decides-when (Decides-seq d e) (&&-true b)

module _ {A B : Type 0} {n k : ℕ} {walk : A → Pipe B} where
  pub Settles-last :
      {b : Bool} {r : Piped A}
      → Settles n b r
      → ((a : A) (ctx : PipeContext)
          → IsCounted ctx
          → n ≤ count_of ctx
          → Settles k true (walk a ctx))
      → Settles k b (then_pipe r walk)
  Settles-last (finishes v l) f = f _ _ v l
  Settles-last refuses f = refuses

pub Decides-pure : {A : Type 0} {a : A} → Decides true (pure a)
Decides-pure = record { decides = λ ctx v. finishes v (omega arith) }

pub Decides-throw : {A : Type 0} (e : Thrown) → Decides false (throw {A = A} e)
Decides-throw e = record { decides = λ ctx v. refuses }

pub Decides-if :
    {A : Type 0} {b c : Bool} {m n : Pipe A} (x : Bool)
    → Decides b m
    → Decides c n
    → Decides (if x then b else c) (if x then m else n)
Decides-if true d e = d
Decides-if false d e = e

pub Decides-either :
    {A : Type 0} {b : Bool} {m n : Pipe A} (x : Bool)
    → Decides b m
    → Decides b n
    → Decides b (if x then m else n)
Decides-either true d e = d
Decides-either false d e = e

pub add-IsCounted :
    (opcode : Opcode) (operands : List Operand) (ctx : PipeContext)
    → IsCounted ctx
    → (ctx' : PipeContext) × (add opcode operands ctx ≡ done (count_of ctx) ctx')
      × IsCounted ctx'
      × (count_of ctx' ≡ count_of ctx + 1)
unfolding add add_instruction
add-IsCounted opcode operands ctx v =
    let i : Instruction = record { opcode = opcode; operands = operands } in
    (
      record ctx { data_section = (add_instruction i ctx.data_section).0 },
      refl,
      record {
        counted = omega (arith, v.counted, length-append ctx.data_section.instructions (i ∷ []));
      },
      refl,
    )

pub replace-IsCounted :
    (index : ℕ) (opcode : Opcode) (operands : List Operand) (ctx : PipeContext)
    → IsCounted ctx
    → index < count_of ctx
    → (ctx' : PipeContext) × (replace index opcode operands ctx ≡ done tt ctx')
      × IsCounted ctx'
      × (count_of ctx' ≡ count_of ctx)
unfolding replace replace_instruction
replace-IsCounted index opcode operands ctx v l =
    let i : Instruction = record { opcode = opcode; operands = operands } in
    let old = get_elem?-lt ctx.data_section.instructions index (omega (arith, v.counted)) in
    rw (old.1, replace)
      (
        _,
        refl,
        record { counted = v.counted ∙ sym (length-set ctx.data_section.instructions index i) },
        refl,
      )

module _ {B : Type 0} {n : ℕ} {b : Bool} where
  -- A step with a known result.
  pub Settles-then :
      {A : Type 0} {r : Piped A} (walk : A → Pipe B) {a : A} {ctx : PipeContext}
      → r ≡ done a ctx
      → Settles n b (walk a ctx)
      → Settles n b (then_pipe r walk)
  Settles-then walk e s = subst (λ r. Settles n b (then_pipe r walk)) (sym e) s

pub Settles-replace :
    {n : ℕ} (index : ℕ) (opcode : Opcode) (operands : List Operand) (ctx : PipeContext)
    → IsCounted ctx
    → index < count_of ctx
    → n ≤ count_of ctx
    → Settles n true (replace index opcode operands ctx)
Settles-replace {n} index opcode operands ctx v l p =
    let r = replace-IsCounted index opcode operands ctx v l in
    subst (Settles n true) (sym r.1) (finishes r.2 (omega (arith, r.3)))

pub Decides-emit :
    (opcode : Opcode) (operands : List Operand) → Decides true (emit_with opcode operands)
unfolding emit_with
Decides-emit opcode operands = record {
  decides = λ ctx v.
      let r = add-IsCounted opcode operands ctx v in
      Settles-then (λ idx. pure tt) r.1 (finishes r.2 (omega (arith, r.3)));
}

pub Decides-register :
    {B : Type 0} {b : Bool} {walk : ℕ → Pipe B} (x : Str)
    → ((idx : ℕ) → Decides b (walk idx))
    → Decides b (register x >>= walk)
unfolding register
Decides-register x f = record {
  decides = λ ctx v. let g = f _ in g.decides _ (record { counted = v.counted });
}

pub Decides-name : (opcode : Opcode) (name : Str) → Decides true (emit_name opcode name)
Decides-name opcode name = Decides-register name λ idx. Decides-emit opcode _
