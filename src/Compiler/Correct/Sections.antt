-- ===== src/Compiler/Correct/Sections.antt =====
-- What atomixc leaves in the sections of a module, whatever the tree.
use atomix_js.Prelude.{ℕ, ◌+◌, ◌≡◌, refl, ap, ◌∙◌, true, false, List, [], ◌∷◌, arith}
use atomix_js.Loader.Code.{Shape}
use atomix_js.Compiler.Sections.Valid.{instructions_length}
use atomix_js.Value.{Platform}
use atomix_js.Vm.{JsModule}
use atomix_js.Vm.Exec.{Host, exhausted}
use atomix_js.Execution.Calls.{Calls}
use atomix_js.Compiler.Syntax.{Node}
use atomix_js.Compiler.Emit.{Numbers, PipeContext, done}
use atomix_js.Compiler.Pipe.{begin_pipe}
use atomix_js.Compiler.Growth.{IsContext}
use atomix_js.Compiler.Meaning.{Evaluates}
use atomix_js.Compiler.Implements.{kind, has_shape, AllShaped, Emitted}
use atomix_js.Compiler.Correct.Run.{empty, begin_pipe-Emitted}
use atomix_js.Compiler.Sections.{
  Operand, constant_integer, constant_short, constant_double, operand_length, operands_length,
  Instruction, new_data_section,
}
use atomix_js.Compiler.Write.{write_module_format}
use atomix_js.Compiler.Write.Sections.{module_format, write_module_format_lem}
use atomix_js.Loader.Write.{write_module}
use mathlib.Core.Path.{subst, sym}

-- A machine without code, to read off what the sections hold on any machine.
abbrev no_platform : Platform
no_platform = record {
  fadd = λ a b. a;
  fsub = λ a b. a;
  fmul = λ a b. a;
  fdiv = λ a b. a;
  fmod = λ a b. a;
  fneg = λ a. a;
  of_int = λ a. a;
  to_int = λ a. a;
  feq = λ a b. false;
  flt = λ a b. false;
  fle = λ a b. false;
  fzero = 0;
  nan = 0;
  pos_infinity = 0;
  neg_infinity = 0;
}

abbrev no_host : Host
no_host = record {
  platform = no_platform;
  malloc = λ n. 0;
  print_int = λ n. [];
  print_double = λ n. [];
  print_fixed = λ n. [];
  module_size = 0;
}

abbrev no_calls : Calls
no_calls = record { run = λ f. exhausted; native = λ i this args. exhausted }

abbrev no_module : JsModule
no_module = record {
  bundle = 0;
  hash = 0;
  string_table = record { length = 0; count = 0; offsets = []; strings = [] };
  count = 0;
  instructions = [];
  initialized = false;
  exports = 0;
  scope = 0;
}

-- The bytes of the operands of an opcode, as their classes state them: four for a double.
unfoldable pub stated_length : Shape → ℕ
stated_length Shape.int32 = 4
stated_length Shape.double64 = 4
stated_length Shape.uint16 = 2
stated_length Shape.two_uint16 = 4
stated_length _ = 0

-- The bytes of a code by its opcodes alone.
unfoldable pub code_length : List Instruction → ℕ
unfolding stated_length
code_length [] = 0
code_length (i ∷ code) = 1 + stated_length (kind i.opcode) + code_length code

operands_length-stated :
    (k : Shape) (operands : List Operand)
    → has_shape k operands ≡ true
    → operands_length operands ≡ stated_length k
unfolding operands_length operand_length stated_length
operands_length-stated Shape.plain [] e = refl
operands_length-stated Shape.int32 (constant_integer x ∷ []) e = refl
operands_length-stated Shape.double64 (constant_double x ∷ []) e = refl
operands_length-stated Shape.uint16 (constant_short x ∷ []) e = refl
operands_length-stated Shape.two_uint16 (constant_short x ∷ constant_short y ∷ []) e = refl
operands_length-stated _ _ e = absurd (cc)

instructions_length-code_length :
    (code : List Instruction) → AllShaped code → instructions_length code ≡ code_length code
unfolding instructions_length code_length
instructions_length-code_length [] shaped = refl
instructions_length-code_length (i ∷ code) shaped = omega (
  arith,
  operands_length-stated (kind i.opcode) i.operands shaped.0,
  instructions_length-code_length code shaped.1,
)

module _ (js : Numbers) (tree : Node) (ctx : PipeContext)
    (e : begin_pipe js tree ≡ done tt ctx) where
  emitted :
      Emitted no_host no_calls no_module (Evaluates no_host no_calls no_module js tree) empty ctx
  emitted = begin_pipe-Emitted no_host no_calls no_module js tree ctx refl e

  pub begin_pipe-IsContext : IsContext ctx
  begin_pipe-IsContext = let g = emitted.grew in g.valid

  pub begin_pipe-AllShaped : AllShaped ctx.data_section.instructions
  unfolding new_data_section
  begin_pipe-AllShaped = let g = emitted.grew in subst AllShaped (sym g.code_is) emitted.shaped

  -- What atomixc leaves in the sections of a tree that it compiles: the counts are those of what the
  -- sections hold, the length of the string table is that of its bytes, and the length of the code is
  -- eight bytes, and for each instruction one byte and the bytes of the operands of its opcode as
  -- their classes state them: two for an index, four for an integer, and four for a double, which is
  -- written with eight. Each string has the offset where it begins and no string stands twice, every instruction
  -- has the operands of its opcode, and every NOP that stood for a jump or a function has been
  -- replaced.
  pub begin_pipe-IsFinished :
      IsContext ctx
      × AllShaped ctx.data_section.instructions
      × (ctx.data_section.length ≡ 8 + code_length ctx.data_section.instructions)
  begin_pipe-IsFinished =
      let v = begin_pipe-IsContext in
      (
        v,
        begin_pipe-AllShaped,
        v.data_valid.sized
            ∙ ap (λ n. 8 + n)
                (instructions_length-code_length ctx.data_section.instructions
                  begin_pipe-AllShaped),
      )

  -- The file that atomixc writes of a tree that it compiles is the module format with the strings and
  -- the instructions of the sections.
  pub begin_pipe-write_module_format :
      (low high : ℕ)
      → write_module_format low high ctx.stable ctx.data_section
        ≡ write_module (module_format low high ctx)
  begin_pipe-write_module_format low high =
      write_module_format_lem low high ctx begin_pipe-IsContext begin_pipe-AllShaped
