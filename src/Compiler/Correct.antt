-- ===== src/Compiler/Correct.antt =====
-- atomixc compiles a program to code that does on the machine what the program means.
pub mod Run
pub mod Sections
pub mod File
use atomix_js.Prelude.{
  ℕ, zero, suc, ◌+◌, ◌%◌, ◌≡◌, refl, ap, sym, ◌∙◌, Bool, true, false, Option, none, some, List, [],
  ◌∷◌, Str, length, map, get_elem?, if◌then◌else◌, arith,
}
use mathlib.Core.Path.{subst}
use atomix_js.Prelude.Word.{u32_mod}
use atomix_js.Instruction.{Opcode}
use atomix_js.Loader.Code.{Shape}
use atomix_js.Vm.{Vm, JsModule}
use atomix_js.Vm.Exec.{Host, ret}
use atomix_js.Execution.Calls.{Calls}
use atomix_js.Execution.Run.{module_loop}
use atomix_js.Execution.Steps.{at, Here, module_loop-Runs}
use atomix_js.Compiler.Syntax.{AssignmentOperator, Node, Nodes}
use atomix_js.Compiler.Sections.{
  constant_integer, Instruction, new_data_section, new_stable_section,
}
use atomix_js.Compiler.Sections.Valid.{new_data_section-IsData}
use atomix_js.Compiler.Sections.Strings.{new_stable_section-IsStable}
use atomix_js.Compiler.Emit.{
  Thrown, Numbers, PipeContext, done, Pipe, ◌>>=◌, ◌>>◌, pure, emit, emit_name, emit_short,
  emit_with, register, text_length, text_default, binary_opcode, is_absent, is_member,
  is_function_declaration, count_nodes, name_of,
}
use atomix_js.Compiler.Pipe.{
  pipe_node, pipe_target, pipe_assignment, pipe_nodes, pipe_reversed, pipe_statements,
  pipe_properties, pipe_property, pipe_elements, pipe_specifiers, pipe_specifier, begin_pipe,
}
use atomix_js.Compiler.Growth.{IsContext, Ensures, ends, throws, Grew}
use atomix_js.Compiler.Meaning.{
  arity, Rel, ◌⨾◌, Effect, Named, Same, Never, Evaluates, EvaluatesCallee, EvaluatesAssignment,
  EvaluatesNodes, EvaluatesReversed, EvaluatesStatements, EvaluatesProperties, EvaluatesProperty,
  EvaluatesElements, EvaluatesSpecifiers, EvaluatesSpecifier,
}
use atomix_js.Compiler.Implements.{
  kind, to_inst, Stands, Listed, Emitted, Implements, Implements-seq, Implements-nothing,
  Implements-throw, Implements-weaken,
}
use atomix_js.Compiler.Implements.Emits.{
  Implements-emit_with, Implements-emit, Implements-emit_short, Implements-known,
  Implements-register, Implements-emit_name, Implements-if, Implements-optional, Implements-dropped,
}
use atomix_js.Compiler.Implements.Jumps.{Implements-Branches}
use atomix_js.Compiler.Implements.Loops.{Implements-Iterates}
use atomix_js.Compiler.Implements.Functions.{Implements-function, Implements-never}
use atomix_js.Compiler.Implements.Parts.{
  Implements-number, Implements-identifier, Implements-operator, Implements-unary,
  Implements-object, Implements-property, Implements-store, Implements-id,
  Implements-export_declaration, Implements-export_name,
}

count_nodes-arity : (l : Nodes) → count_nodes l ≡ arity l
unfolding count_nodes arity
count_nodes-arity Nodes.nil = refl
count_nodes-arity (Nodes.cons n l) = let e = count_nodes-arity l in omega arith

module _ (h : Host) (c : Calls) (m : JsModule) (js : Numbers)
    (counted : m.count ≡ length m.instructions) where
  emits :
      (opcode : Opcode)
      → kind opcode ≡ Shape.plain
      → Implements h c m [] (emit opcode) (Effect h c m opcode 0)
  emits opcode e = Implements-emit h c m counted opcode e

  names :
      (opcode : Opcode)
      → kind opcode ≡ Shape.uint16
      → (name : Str) → Implements h c m [] (emit_name opcode name) (Named h c m opcode name)
  names opcode e name = Implements-emit_name h c m counted opcode e name

  length-Implements :
      {known : List (ℕ × Str)} (n k : ℕ)
      → n ≡ k
      → Implements h c m known
          (emit_with Opcode.op_ld_int (constant_integer (n % u32_mod) ∷ []))
          (Effect h c m Opcode.op_ld_int (k % u32_mod))
  length-Implements {known} n k e =
      subst
        (λ x.
          Implements h c m known (emit_with Opcode.op_ld_int (constant_integer (n % u32_mod) ∷ []))
            (Effect h c m Opcode.op_ld_int (x % u32_mod)))
        e
        (Implements-emit_with h c m counted Opcode.op_ld_int (constant_integer (n % u32_mod) ∷ [])
          refl)

  mutual
    unfolding pipe_node Evaluates

    node-Implements : (n : Node) → Implements h c m [] (pipe_node js n) (Evaluates h c m js n)
    node-Implements (Node.program body) = statements-Implements body
    node-Implements (Node.string_literal value) = names Opcode.op_ld_string refl value
    node-Implements (Node.numeric_literal value) = Implements-number h c m counted js value
    node-Implements (Node.boolean_literal true) = emits Opcode.op_ld_true refl
    node-Implements (Node.boolean_literal false) = emits Opcode.op_ld_false refl
    node-Implements Node.null_literal = emits Opcode.op_ld_null refl
    node-Implements (Node.identifier name) = Implements-identifier h c m counted name
    node-Implements Node.this_expression = emits Opcode.op_ld_this refl
    node-Implements (Node.expression_statement e) =
        Implements-seq h c m (node-Implements e) (emits Opcode.op_pop refl)
    node-Implements (Node.binary_expression operator left right) =
        Implements-seq h c m (node-Implements left) (
          Implements-seq h c m (node-Implements right) (Implements-operator h c m counted operator))
    node-Implements (Node.unary_expression operator argument) =
        Implements-seq h c m (node-Implements argument) (Implements-unary h c m counted operator)
    node-Implements (Node.call_expression callee arguments) =
        Implements-seq h c m (reversed-Implements arguments) (
          Implements-seq h c m (callee-Implements callee (node-Implements callee)) (
            subst
              (λ n.
                Implements h c m [] (emit_short Opcode.op_call (count_nodes arguments))
                  (Effect h c m Opcode.op_call n))
              (count_nodes-arity arguments)
              (Implements-emit_short h c m counted Opcode.op_call refl (count_nodes arguments))))
    node-Implements (Node.object_expression properties) =
        Implements-seq h c m (emits Opcode.op_obj_alloc refl) (properties-Implements properties)
    node-Implements (Node.object_property key value) = Implements-throw h c m _
    node-Implements (Node.array_expression elements) =
        Implements-seq h c m (emits Opcode.op_arr_alloc refl) (
          Implements-seq h c m (emits Opcode.op_dup refl) (
            Implements-register h c m counted text_length _ λ idx.
              Implements-seq h c m
                (length-Implements (count_nodes elements) (arity elements)
                  (count_nodes-arity elements))
                (Implements-seq h c m
                  (Implements-known h c m counted Opcode.op_obj_store refl text_length idx
                    λ strings n. n.0)
                  (Implements-weaken h c m (elements-Implements 0 elements)))))
    node-Implements (Node.member_expression object property computed) =
        Implements-seq h c m (Implements-object h c m counted object false (node-Implements object))
          (Implements-property h c m counted property computed (node-Implements property))
    node-Implements (Node.super extra) = Implements-throw h c m _
    node-Implements (Node.assignment_expression AssignmentOperator.assign left right) =
        assignment-Implements left right (node-Implements right)
    node-Implements
          (Node.assignment_expression (AssignmentOperator.assign_with operator) left right) =
        Implements-throw h c m _
    node-Implements (Node.variable_declaration declarations) = nodes-Implements declarations
    node-Implements (Node.variable_declarator id init) =
        Implements-seq h c m
          (Implements-optional h c m counted init (emits Opcode.op_ld_undf refl)
            (node-Implements init))
          (Implements-id h c m counted id)
    node-Implements (Node.object_pattern properties) = Implements-throw h c m _
    node-Implements (Node.function_declaration id params body) =
        Implements-function h c m counted id params (node-Implements body)
    node-Implements (Node.function_expression id params body) =
        Implements-function h c m counted id params (node-Implements body)
    node-Implements (Node.block_statement virtual body) =
        Implements-seq h c m
          (Implements-if h c m counted virtual (Implements-nothing h c m)
            (emits Opcode.op_push_scope refl))
          (Implements-seq h c m (statements-Implements body) (
            Implements-if h c m counted virtual (Implements-nothing h c m)
              (emits Opcode.op_pop_scope refl)))
    node-Implements (Node.return_statement argument) = Implements-never h c m (
        Implements-seq h c m
          (Implements-if h c m counted (is_absent argument) (Implements-nothing h c m)
            (node-Implements argument))
          (emits Opcode.op_return refl))
    node-Implements (Node.if_statement test consequent alternate) =
        Implements-Branches h c m counted alternate (node-Implements test)
          (node-Implements consequent) (node-Implements alternate)
    node-Implements (Node.while_statement test body) =
        Implements-Iterates h c m counted (node-Implements test) (node-Implements body)
    node-Implements (Node.export_named_declaration declaration specifiers) =
        Implements-seq h c m
          (Implements-optional h c m counted declaration (Implements-nothing h c m) (
            Implements-seq h c m (node-Implements declaration)
              (Implements-export_declaration h c m counted declaration)))
          (specifiers-Implements declaration (node-Implements declaration) specifiers)
    node-Implements (Node.export_specifier local exported) = Implements-throw h c m _
    node-Implements (Node.export_default_specifier exported) = Implements-throw h c m _
    node-Implements (Node.export_namespace_specifier exported) = Implements-throw h c m _
    node-Implements (Node.export_default_declaration declaration) =
        Implements-seq h c m (node-Implements declaration)
          (names Opcode.op_export refl text_default)
    node-Implements Node.other_node = Implements-throw h c m _
    node-Implements Node.absent = Implements-throw h c m _

    callee-Implements :
        (n : Node)
        → Implements h c m [] (pipe_node js n) (Evaluates h c m js n)
        → Implements h c m []
            (if is_member n then pipe_target js n else (do emit Opcode.op_ld_undf; pipe_node js n))
            (EvaluatesCallee h c m js n (Evaluates h c m js n))
    callee-Implements (Node.member_expression object property computed) i =
        Implements-seq h c m (Implements-object h c m counted object true (node-Implements object))
          (Implements-property h c m counted property computed (node-Implements property))
    callee-Implements _ i = Implements-seq h c m (emits Opcode.op_ld_undf refl) i

    assignment-Implements :
        (left right : Node)
        → Implements h c m [] (pipe_node js right) (Evaluates h c m js right)
        → Implements h c m []
            (pipe_assignment js left (pipe_node js right))
            (EvaluatesAssignment h c m js left (Evaluates h c m js right))
    assignment-Implements (Node.identifier name) right i =
        Implements-seq h c m i
          (Implements-seq h c m (emits Opcode.op_dup refl) (names Opcode.op_store_local refl name))
    assignment-Implements (Node.member_expression object property computed) right i =
        Implements-seq h c m i (
          Implements-seq h c m (emits Opcode.op_dup refl) (
            Implements-store h c m counted property computed (node-Implements object)
              (node-Implements property)))
    assignment-Implements _ right i = Implements-never h c m (Implements-nothing h c m)

    nodes-Implements :
        (l : Nodes) → Implements h c m [] (pipe_nodes js l) (EvaluatesNodes h c m js l)
    nodes-Implements Nodes.nil = Implements-nothing h c m
    nodes-Implements (Nodes.cons n l) =
        Implements-seq h c m (node-Implements n) (nodes-Implements l)

    reversed-Implements :
        (l : Nodes) → Implements h c m [] (pipe_reversed js l) (EvaluatesReversed h c m js l)
    reversed-Implements Nodes.nil = Implements-nothing h c m
    reversed-Implements (Nodes.cons n l) =
        Implements-seq h c m (reversed-Implements l) (node-Implements n)

    statements-Implements :
        (l : Nodes) → Implements h c m [] (pipe_statements js l) (EvaluatesStatements h c m js l)
    statements-Implements Nodes.nil = Implements-nothing h c m
    statements-Implements (Nodes.cons n l) =
        Implements-seq h c m (node-Implements n)
          (Implements-seq h c m (Implements-dropped h c m counted n) (statements-Implements l))

    properties-Implements :
        (l : Nodes) → Implements h c m [] (pipe_properties js l) (EvaluatesProperties h c m js l)
    properties-Implements Nodes.nil = Implements-nothing h c m
    properties-Implements (Nodes.cons n l) =
        Implements-seq h c m (property-Implements n) (properties-Implements l)

    property-Implements :
        (n : Node) → Implements h c m [] (pipe_property js n) (EvaluatesProperty h c m js n)
    property-Implements (Node.object_property (Node.identifier key) value) =
        Implements-seq h c m (emits Opcode.op_dup refl) (
          Implements-register h c m counted key _ λ idx.
            Implements-seq h c m (Implements-weaken h c m (node-Implements value))
              (Implements-known h c m counted Opcode.op_obj_store refl key idx λ strings n. n.0))
    property-Implements (Node.object_property Node.absent value) = Implements-throw h c m _
    property-Implements (Node.object_property _ value) = Implements-throw h c m _
    property-Implements _ = Implements-throw h c m _

    elements-Implements :
        (i : ℕ) (l : Nodes)
        → Implements h c m [] (pipe_elements js i l) (EvaluatesElements h c m js i l)
    elements-Implements i Nodes.nil = Implements-nothing h c m
    elements-Implements i (Nodes.cons n l) = Implements-seq h c m (emits Opcode.op_dup refl) (
        Implements-seq h c m (node-Implements n) (
          Implements-seq h c m (names Opcode.op_obj_store refl (js.to_string i))
            (elements-Implements (i + 1) l)))

    specifiers-Implements :
        (d : Node)
        → Implements h c m [] (pipe_node js d) (Evaluates h c m js d)
        → (l : Nodes)
        → Implements h c m []
            (pipe_specifiers js (pipe_node js d) l)
            (EvaluatesSpecifiers h c m js (Evaluates h c m js d) l)
    specifiers-Implements d i Nodes.nil = Implements-nothing h c m
    specifiers-Implements d i (Nodes.cons n l) =
        Implements-seq h c m (specifier-Implements d i n) (specifiers-Implements d i l)

    specifier-Implements :
        (d : Node)
        → Implements h c m [] (pipe_node js d) (Evaluates h c m js d)
        → (n : Node)
        → Implements h c m []
            (pipe_specifier js (pipe_node js d) n)
            (EvaluatesSpecifier h c m js (Evaluates h c m js d) n)
    specifier-Implements d i (Node.export_specifier local exported) =
        Implements-seq h c m (node-Implements local) (Implements-export_name h c m counted exported)
    specifier-Implements d i (Node.export_default_specifier exported) =
        Implements-seq h c m i (names Opcode.op_export refl text_default)
    specifier-Implements d i (Node.export_namespace_specifier (Node.identifier name)) =
        Implements-seq h c m (Implements-identifier h c m counted name)
          (names Opcode.op_export refl name)
    specifier-Implements d i (Node.export_namespace_specifier exported) = Implements-never h c m (
        Implements-seq h c m (node-Implements exported)
          (Implements-throw h c m {r = Same} Thrown.type_error))
    specifier-Implements d i _ = Implements-throw h c m _
