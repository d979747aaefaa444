-- ===== src/Compiler/Accepts/Exact.antt =====
-- The walk over a tree ends exactly where the test accepts the tree.
use atomix_js.Prelude.{ℕ, ◌+◌, ◌≡◌, refl, Bool, true, false, [], ◌&&◌, if◌then◌else◌}
use atomix_js.Instruction.{Opcode}
use atomix_js.Compiler.Syntax.{AssignmentOperator, Node, Nodes}
use atomix_js.Compiler.Sections.{new_data_section, new_stable_section}
use atomix_js.Compiler.Emit.{
  Thrown, Piped, done, thrown, Pipe, ◌>>◌, emit, Numbers, text_length, text_default, is_absent,
  is_member, is_function_declaration,
}
use atomix_js.Compiler.Pipe.{
  pipe_node, pipe_target, pipe_assignment, pipe_nodes, pipe_reversed, pipe_statements,
  pipe_properties, pipe_property, pipe_elements, pipe_specifiers, pipe_specifier, begin_pipe,
}
use atomix_js.Compiler.Accepts.{
  compiles, all_compile, is_target, all_properties, is_property, all_specifiers, is_specifier,
  is_identifier,
}
use atomix_js.Compiler.Accepts.Decides.{
  Settles, finishes, refuses, Decides, Decides-when, Decides-seq, Decides-last, Decides-pure,
  Decides-throw, Decides-if, Decides-either, Decides-emit, Decides-register, Decides-name,
}
use atomix_js.Compiler.Accepts.Decides.Parts.{
  Decides-number, Decides-identifier, Decides-operator, Decides-unary, Decides-object,
  Decides-property, Decides-store, Decides-binding, Decides-exported, Decides-export_name,
}
use atomix_js.Compiler.Accepts.Decides.Jumps.{
  Decides-function, Decides-if_statement, Decides-loop, Decides-if_statement,
}

&&-false : (b : Bool) → b && false ≡ false
&&-false true = refl
&&-false false = refl

&&-comm : (b c : Bool) → b && c ≡ c && b
&&-comm true true = refl
&&-comm true false = refl
&&-comm false true = refl
&&-comm false false = refl

unfoldable pub is_done : {A : Type 0} → Piped A → Bool
is_done (done a ctx) = true
is_done (thrown e) = false

Settles-is_done : {A : Type 0} {n : ℕ} (b : Bool) {r : Piped A} → Settles n b r → is_done r ≡ b
unfolding is_done
Settles-is_done b (finishes v l) = refl
Settles-is_done b refuses = refl

compiles-identifier : (n : Node) → is_identifier n ≡ true → compiles n ≡ true
unfolding is_identifier compiles
compiles-identifier (Node.identifier name) e = refl
compiles-identifier _ e = absurd (cc)

module _ (js : Numbers) where
  mutual
    unfolding pipe_node compiles

    node-Decides : (n : Node) → Decides (compiles n) (pipe_node js n)
    node-Decides (Node.program body) = statements-Decides body
    node-Decides (Node.string_literal value) = Decides-name _ value
    node-Decides (Node.numeric_literal value) = Decides-number js value
    node-Decides (Node.boolean_literal value) = Decides-emit _ []
    node-Decides Node.null_literal = Decides-emit _ []
    node-Decides (Node.identifier name) = Decides-identifier name
    node-Decides Node.this_expression = Decides-emit _ []
    node-Decides (Node.expression_statement e) = Decides-last (node-Decides e) (Decides-emit _ [])
    node-Decides (Node.binary_expression operator left right) =
        Decides-seq (node-Decides left)
          (Decides-seq (node-Decides right) (Decides-operator operator))
    node-Decides (Node.unary_expression operator argument) =
        Decides-seq (node-Decides argument) (Decides-unary operator)
    node-Decides (Node.call_expression callee arguments) =
        Decides-seq (reversed-Decides arguments)
          (Decides-last (callee-Decides callee (node-Decides callee)) (Decides-emit _ _))
    node-Decides (Node.object_expression properties) =
        Decides-seq (Decides-emit _ []) (properties-Decides properties)
    node-Decides (Node.object_property key value) = Decides-throw _
    node-Decides (Node.array_expression elements) = Decides-seq (Decides-emit _ []) (
        Decides-seq (Decides-emit _ []) (
          Decides-register text_length λ idx.
            Decides-seq (Decides-emit _ _)
              (Decides-seq (Decides-emit _ _) (elements-Decides 0 elements))))
    node-Decides (Node.member_expression object property computed) =
        Decides-seq (Decides-object object false (node-Decides object))
          (Decides-property property computed (node-Decides property))
    node-Decides (Node.super extra) = Decides-throw _
    node-Decides (Node.assignment_expression AssignmentOperator.assign left right) =
        assignment-Decides left (node-Decides right)
    node-Decides (Node.assignment_expression (AssignmentOperator.assign_with operator) left right) =
        Decides-throw _
    node-Decides (Node.variable_declaration declarations) = nodes-Decides declarations
    node-Decides (Node.variable_declarator id init) =
        Decides-seq (Decides-if (is_absent init) (Decides-emit _ []) (node-Decides init))
          (Decides-binding id)
    node-Decides (Node.object_pattern properties) = Decides-throw _
    node-Decides (Node.function_declaration id params body) =
        Decides-function id params (node-Decides body)
    node-Decides (Node.function_expression id params body) =
        Decides-function id params (node-Decides body)
    node-Decides (Node.block_statement virtual body) =
        Decides-seq (Decides-either virtual Decides-pure (Decides-emit _ [])) (
          Decides-last (statements-Decides body)
            (Decides-either virtual Decides-pure (Decides-emit _ [])))
    node-Decides (Node.return_statement argument) =
        Decides-last (Decides-if (is_absent argument) Decides-pure (node-Decides argument))
          (Decides-emit _ [])
    node-Decides (Node.if_statement test consequent alternate) =
        Decides-if_statement (is_absent alternate) (node-Decides test) (node-Decides consequent)
          (node-Decides alternate)
    node-Decides (Node.while_statement test body) =
        Decides-loop (node-Decides test) (node-Decides body)
    node-Decides (Node.export_named_declaration declaration specifiers) =
        Decides-seq
          (Decides-if (is_absent declaration) Decides-pure
            (Decides-seq (node-Decides declaration) (Decides-exported declaration)))
          (specifiers-Decides (node-Decides declaration) specifiers)
    node-Decides (Node.export_specifier local exported) = Decides-throw _
    node-Decides (Node.export_default_specifier exported) = Decides-throw _
    node-Decides (Node.export_namespace_specifier exported) = Decides-throw _
    node-Decides (Node.export_default_declaration declaration) =
        Decides-last (node-Decides declaration) (Decides-name _ text_default)
    node-Decides Node.other_node = Decides-throw _
    node-Decides Node.absent = Decides-throw _

    callee-Decides :
        (n : Node)
        → Decides (compiles n) (pipe_node js n)
        → Decides
            (compiles n)
            (if is_member n then pipe_target js n else (do emit Opcode.op_ld_undf; pipe_node js n))
    callee-Decides (Node.member_expression object property computed) d =
        Decides-seq (Decides-object object true (node-Decides object))
          (Decides-property property computed (node-Decides property))
    callee-Decides _ d = Decides-seq (Decides-emit _ []) d

    assignment-Decides :
        {b : Bool} {right : Pipe (Unit {0})} (left : Node)
        → Decides b right
        → Decides (is_target left b) (pipe_assignment js left right)
    assignment-Decides (Node.identifier name) d =
        Decides-last d (Decides-seq (Decides-emit _ []) (Decides-name _ name))
    assignment-Decides (Node.member_expression object property computed) d = Decides-seq d (
        Decides-seq (Decides-emit _ []) (
          Decides-store property computed (node-Decides object) (node-Decides property)
            (compiles-identifier property)))
    assignment-Decides _ d = Decides-pure

    nodes-Decides : (l : Nodes) → Decides (all_compile l) (pipe_nodes js l)
    nodes-Decides Nodes.nil = Decides-pure
    nodes-Decides (Nodes.cons n l) = Decides-seq (node-Decides n) (nodes-Decides l)

    reversed-Decides : (l : Nodes) → Decides (all_compile l) (pipe_reversed js l)
    reversed-Decides Nodes.nil = Decides-pure
    reversed-Decides (Nodes.cons n l) =
        Decides-when (Decides-seq (reversed-Decides l) (node-Decides n))
          (&&-comm (all_compile l) (compiles n))

    statements-Decides : (l : Nodes) → Decides (all_compile l) (pipe_statements js l)
    statements-Decides Nodes.nil = Decides-pure
    statements-Decides (Nodes.cons n l) = Decides-seq (node-Decides n) (
        Decides-seq (Decides-either (is_function_declaration n) (Decides-emit _ []) Decides-pure)
          (statements-Decides l))

    properties-Decides : (l : Nodes) → Decides (all_properties l) (pipe_properties js l)
    properties-Decides Nodes.nil = Decides-pure
    properties-Decides (Nodes.cons n l) = Decides-seq (property-Decides n) (properties-Decides l)

    property-Decides : (n : Node) → Decides (is_property n) (pipe_property js n)
    property-Decides (Node.object_property (Node.identifier key) value) =
        Decides-seq (Decides-emit _ [])
          (Decides-register key λ idx. Decides-last (node-Decides value) (Decides-emit _ _))
    property-Decides (Node.object_property Node.absent value) = Decides-throw _
    property-Decides (Node.object_property _ value) = Decides-throw _
    property-Decides _ = Decides-throw _

    elements-Decides : (i : ℕ) (l : Nodes) → Decides (all_compile l) (pipe_elements js i l)
    elements-Decides i Nodes.nil = Decides-pure
    elements-Decides i (Nodes.cons n l) = Decides-seq (Decides-emit _ []) (
        Decides-seq (node-Decides n)
          (Decides-seq (Decides-name _ (js.to_string i)) (elements-Decides (i + 1) l)))

    specifiers-Decides :
        {b : Bool} {declaration : Pipe (Unit {0})}
        → Decides b declaration
        → (l : Nodes) → Decides (all_specifiers b l) (pipe_specifiers js declaration l)
    specifiers-Decides d Nodes.nil = Decides-pure
    specifiers-Decides d (Nodes.cons n l) =
        Decides-seq (specifier-Decides d n) (specifiers-Decides d l)

    specifier-Decides :
        {b : Bool} {declaration : Pipe (Unit {0})}
        → Decides b declaration
        → (n : Node) → Decides (is_specifier b n) (pipe_specifier js declaration n)
    specifier-Decides d (Node.export_specifier local exported) =
        Decides-seq (node-Decides local) (Decides-export_name exported)
    specifier-Decides d (Node.export_default_specifier exported) =
        Decides-last d (Decides-name _ text_default)
    specifier-Decides d (Node.export_namespace_specifier (Node.identifier name)) =
        Decides-seq (Decides-identifier name) (Decides-name _ name)
    specifier-Decides d (Node.export_namespace_specifier exported) =
        Decides-when (Decides-seq (node-Decides exported) (Decides-throw Thrown.type_error))
          (&&-false (compiles exported))
    specifier-Decides d _ = Decides-throw _

  -- atomixc compiles a tree exactly if the test of the tree alone accepts it: on such a tree the walk
  -- ends with sections, on any other it throws.
  pub begin_pipe-compiles : (tree : Node) → is_done (begin_pipe js tree) ≡ compiles tree
  unfolding begin_pipe new_data_section
  begin_pipe-compiles tree =
      let d = node-Decides tree in
      Settles-is_done (compiles tree) (
        d.decides (record { stable = new_stable_section; data_section = new_data_section })
          (record { counted = refl }))
