-- ===== src/Compiler/Implements.antt =====
-- A walk of atomixc implements a meaning: the code that it emits, where it stands in a module with the
-- names at their indices, runs the machine from its first instruction to the one behind its last.
pub mod Emits
pub mod Jumps
pub mod Loops
pub mod Functions
pub mod Parts
use atomix_js.Prelude.{
  ℕ, zero, suc, ◌+◌, ◌≡◌, refl, ap, ◌∙◌, sym, Bool, true, false, Option, none, some, List, [], ◌∷◌,
  ◌++◌, Str, length, length-append, get_elem?, if◌then◌else◌, arith,
}
use mathlib.Core.Path.{subst}
use atomix_js.Prelude.Result.{ok}
use atomix_js.Format.{string_table_load_str}
use atomix_js.Instruction.{Inst, Opcode}
use atomix_js.Loader.Code.{Shape, shape}
use atomix_js.Vm.{Vm, JsModule}
use atomix_js.Vm.Exec.{Host}
use atomix_js.Execution.Calls.{Calls}
use atomix_js.Execution.Steps.{at, Runs, stop, Runs-trans, Runs-to, Does-Runs}
use atomix_js.Compiler.Sections.{
  Operand, constant_integer, constant_short, constant_double, Instruction,
}
use atomix_js.Compiler.Sections.Strings.{get_elem?-append_left}
use atomix_js.Compiler.Emit.{
  Thrown, PipeContext, Pipe, pure, throw, ◌>>=◌, ◌>>◌, register, add, emit, emit_with, emit_short,
  emit_name,
}
use atomix_js.Compiler.Growth.{
  IsContext, Ensures, ends, throws, Ensures-bind, Ensures-mono, Ensures-then, Grew, Grew-nothing,
  Grew-trans, Grew-count, add-Grew, register-Grew,
}
use atomix_js.Compiler.Meaning.{Rel, ◌⨾◌, Same, Never, When, Effect, Named}

abbrev pub operand_value : Operand → ℕ
operand_value (constant_integer x) = x
operand_value (constant_short x) = x
operand_value (constant_double x) = x

abbrev pub operand_at : ℕ → List Operand → ℕ
operand_at n [] = 0
operand_at zero (o ∷ operands) = operand_value o
operand_at (suc n) (o ∷ operands) = operand_at n operands

-- The struct that the loader makes of an instruction.
abbrev pub to_inst : Instruction → Inst
to_inst i = record {
  opcode = i.opcode;
  operand = operand_at 0 i.operands;
  operand2 = operand_at 1 i.operands;
}

-- The operands that an opcode has in the file, as the loader reads them.
abbrev pub kind : Opcode → Shape
kind Opcode.op_nop = Shape.skipped
kind Opcode.op_ld_int = Shape.int32
kind Opcode.op_ld_double = Shape.double64
kind Opcode.op_ld_string = Shape.uint16
kind Opcode.op_alloc_local = Shape.uint16
kind Opcode.op_store_local = Shape.uint16
kind Opcode.op_load_local = Shape.uint16
kind Opcode.op_load_arg = Shape.uint16
kind Opcode.op_func_decl = Shape.two_uint16
kind Opcode.op_func_decl_e = Shape.uint16
kind Opcode.op_call = Shape.uint16
kind Opcode.op_obj_store = Shape.uint16
kind Opcode.op_obj_load = Shape.uint16
kind Opcode.op_jmp = Shape.uint16
kind Opcode.op_jmp_f = Shape.uint16
kind Opcode.op_jmp_t = Shape.uint16
kind Opcode.op_export = Shape.uint16
kind _ = Shape.plain

pub kind_lem : (o : Opcode) → kind o ≡ shape o
unfolding shape
kind_lem Opcode.op_nop = refl
kind_lem _ = refl

abbrev pub has_shape : Shape → List Operand → Bool
has_shape Shape.plain [] = true
has_shape Shape.int32 (constant_integer x ∷ []) = true
has_shape Shape.double64 (constant_double x ∷ []) = true
has_shape Shape.uint16 (constant_short x ∷ []) = true
has_shape Shape.two_uint16 (constant_short x ∷ constant_short y ∷ []) = true
has_shape _ _ = false

-- An instruction with the operands of its opcode, and no NOP.
abbrev pub IsShaped : Instruction → Type 0
IsShaped i = has_shape (kind i.opcode) i.operands ≡ true

abbrev pub AllShaped : List Instruction → Type 0
AllShaped [] = Unit
AllShaped (i ∷ code) = IsShaped i × AllShaped code

pub AllShaped-append :
    (xs ys : List Instruction) → AllShaped xs → AllShaped ys → AllShaped (xs ++ ys)
AllShaped-append [] ys a b = b
AllShaped-append (x ∷ xs) ys a b = (a.0, AllShaped-append xs ys a.1 b)

-- What a walk knows about the string table.
abbrev pub Knows : List (ℕ × Str) → List Str → Type 0
Knows [] strings = Unit
Knows ((idx, name) ∷ known) strings = (get_elem? strings idx ≡ some name) × Knows known strings

Knows-append : (known : List (ℕ × Str)) (xs ys : List Str) → Knows known xs → Knows known (xs ++ ys)
Knows-append [] xs ys k = tt
Knows-append ((idx, name) ∷ known) xs ys k =
    (get_elem?-append_left xs ys idx name k.0, Knows-append known xs ys k.1)

pub Knows-Grew :
    (known : List (ℕ × Str)) {code : List Instruction} {ctx ctx' : PipeContext}
    → Grew code ctx ctx'
    → Knows known ctx.stable.strings
    → Knows known ctx'.stable.strings
Knows-Grew known {ctx = ctx} g k =
    subst (Knows known) (sym g.names_are) (Knows-append known ctx.stable.strings g.names k)

module _ (h : Host) (c : Calls) (m : JsModule) where
  -- The code stands in the module from the k-th instruction on.
  abbrev pub Stands : ℕ → List Instruction → Type 0
  Stands k [] = Unit
  Stands k (i ∷ code) = (get_elem? m.instructions k ≡ some (some (to_inst i))) × Stands (k + 1) code

  -- The module has the strings at their indices.
  abbrev pub Listed : List Str → Type 0
  Listed strings =
      (idx : ℕ) (s : Str)
      → get_elem? strings idx ≡ some s
      → string_table_load_str m.string_table idx ≡ ok s

  pub Stands-at : {k l : ℕ} (code : List Instruction) → k ≡ l → Stands k code → Stands l code
  Stands-at code e s = subst (λ n. Stands n code) e s

  pub Stands-front : (k : ℕ) (xs ys : List Instruction) → Stands k (xs ++ ys) → Stands k xs
  Stands-front k [] ys s = tt
  Stands-front k (x ∷ xs) ys s = (s.0, Stands-front (k + 1) xs ys s.1)

  pub Stands-back :
      (k : ℕ) (xs ys : List Instruction) → Stands k (xs ++ ys) → Stands (k + length xs) ys
  Stands-back k [] ys s = Stands-at ys (omega arith) s
  Stands-back k (x ∷ xs) ys s = Stands-at ys (omega arith) (Stands-back (k + 1) xs ys s.1)

  pub Listed-Grew :
      {code : List Instruction} {ctx ctx' : PipeContext}
      → Grew code ctx ctx'
      → Listed ctx'.stable.strings
      → Listed ctx.stable.strings
  Listed-Grew {ctx = ctx} g l idx s e =
      l idx s (rw g.names_are (get_elem?-append_left ctx.stable.strings g.names idx s e))

  -- The code at `k` runs what the relation says.
  abbrev pub Performs : ℕ → List Instruction → Rel → Type 0
  Performs k code r = (vm vm' : Vm) → r vm vm' → Runs h c m (at k vm) (at (k + length code) vm')

  pub record Emitted (r : Rel) (ctx ctx' : PipeContext) : Type 0 where
    pub code : List Instruction
    pub grew : Grew code ctx ctx'
    pub shaped : AllShaped code
    pub performs :
        Stands ctx.data_section.count code
        → Listed ctx'.stable.strings
        → Performs ctx.data_section.count code r

  pub record Implements (known : List (ℕ × Str)) (walk : Pipe (Unit {0})) (r : Rel) : Type 0 where
    pub implements :
        (ctx : PipeContext)
        → IsContext ctx
        → Knows known ctx.stable.strings
        → Ensures (λ _ ctx'. Emitted r ctx ctx') (walk ctx)

  pub Emitted-trans :
      {r q : Rel} {ctx ctx1 ctx2 : PipeContext}
      → IsContext ctx
      → Emitted r ctx ctx1
      → Emitted q ctx1 ctx2
      → Emitted (r ⨾ q) ctx ctx2
  Emitted-trans {ctx = ctx} {ctx1} v e f =
      let k = ctx.data_section.count in
      let n : k + length e.code ≡ ctx1.data_section.count = sym (Grew-count v e.grew) in
      record {
        code = e.code ++ f.code;
        grew = Grew-trans e.grew f.grew;
        shaped = AllShaped-append e.code f.code e.shaped f.shaped;
        performs = λ s l vm vm' p.
            Runs-to h c m vm' (omega (arith, n, length-append e.code f.code)) (
              Runs-trans h c m
                (Runs-to h c m p.0 n
                  (e.performs (Stands-front k e.code f.code s) (Listed-Grew f.grew l) vm p.0 p.1))
                (f.performs (Stands-at f.code n (Stands-back k e.code f.code s)) l p.0 vm' p.2));
      }

  pub Implements-seq :
      {known : List (ℕ × Str)} {walk next : Pipe (Unit {0})} {r q : Rel}
      → Implements known walk r
      → Implements known next q
      → Implements known (walk >> next) (r ⨾ q)
  Implements-seq {known} i j = record {
    implements = λ ctx v k. Ensures-bind (i.implements ctx v k) λ a ctx1 e.
        let grew = e.grew in
        Ensures-mono (j.implements ctx1 grew.valid (Knows-Grew known grew k))
          λ b ctx2 f. Emitted-trans v e f;
  }

  pub Implements-nothing : {known : List (ℕ × Str)} → Implements known (pure tt) Same
  Implements-nothing = record {
    implements = λ ctx v k. ends (record {
      code = [];
      grew = Grew-nothing v;
      shaped = tt;
      performs = λ s l vm vm' p.
          stop (ap (at ctx.data_section.count) p ∙ ap (λ n. at n vm') (omega arith));
    });
  }

  pub Implements-throw :
      {known : List (ℕ × Str)} {r : Rel} (e : Thrown) → Implements known (throw e) r
  Implements-throw e = record { implements = λ ctx v k. throws }

  pub Implements-weaken :
      {known : List (ℕ × Str)} {walk : Pipe (Unit {0})} {r : Rel}
      → Implements [] walk r
      → Implements known walk r
  Implements-weaken i = record { implements = λ ctx v k. i.implements ctx v tt }

  -- A meaning that holds less often.
  pub Implements-narrow :
      {known : List (ℕ × Str)} {walk : Pipe (Unit {0})} {r q : Rel}
      → Implements known walk r
      → ((vm vm' : Vm) → q vm vm' → r vm vm')
      → Implements known walk q
  Implements-narrow i only = record {
    implements = λ ctx v k. Ensures-mono (i.implements ctx v k) λ a ctx' e. record {
      code = e.code;
      grew = e.grew;
      shaped = e.shaped;
      performs = λ s l vm vm' p. e.performs s l vm vm' (only vm vm' p);
    };
  }
