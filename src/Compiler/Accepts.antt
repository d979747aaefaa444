-- ===== src/Compiler/Accepts.antt =====
-- The trees that atomixc/src/pipe.ts compiles: a test of the tree alone, without sections or code.
pub mod Decides
pub mod Exact
use atomix_js.Prelude.{Bool, true, false, Option, none, some, [], ◌∷◌, ◌&&◌, if◌then◌else◌, is_some}
use atomix_js.Compiler.Syntax.{
  BinaryOperator, UnaryOperator, AssignmentOperator, SuperExtra, Node, Nodes,
}
use atomix_js.Compiler.Emit.{is_absent}

unfoldable pub is_binary : BinaryOperator → Bool
is_binary BinaryOperator.other = false
is_binary _ = true

unfoldable pub is_unary : UnaryOperator → Bool
is_unary UnaryOperator.other = false
is_unary _ = true

unfoldable pub is_identifier : Node → Bool
is_identifier (Node.identifier name) = true
is_identifier _ = false

unfoldable pub all_identifiers : Nodes → Bool
unfolding is_identifier
all_identifiers Nodes.nil = true
all_identifiers (Nodes.cons node nodes) = is_identifier node && all_identifiers nodes

-- A `super` with a class that it stands for.
unfoldable pub has_target : SuperExtra → Bool
has_target (SuperExtra.target (c ∷ name) static) = true
has_target _ = false

-- `key: value` of an object pattern.
unfoldable pub is_renaming : Node → Bool
unfolding is_identifier
is_renaming (Node.object_property key value) = is_identifier key && is_identifier value
is_renaming _ = false

unfoldable pub all_renamings : Nodes → Bool
unfolding is_renaming
all_renamings Nodes.nil = true
all_renamings (Nodes.cons node nodes) = is_renaming node && all_renamings nodes

unfoldable pub is_binding : Node → Bool
unfolding all_renamings
is_binding (Node.identifier name) = true
is_binding (Node.object_pattern properties) = all_renamings properties
is_binding _ = false

unfoldable pub is_optional_name : Node → Bool
unfolding is_identifier is_absent
is_optional_name id = if is_absent id then true else is_identifier id

-- A declarator with a plain name.
unfoldable pub is_named : Node → Bool
unfolding is_identifier
is_named (Node.variable_declarator id init) = is_identifier id
is_named _ = false

unfoldable pub all_named : Nodes → Bool
unfolding is_named
all_named Nodes.nil = true
all_named (Nodes.cons node nodes) = is_named node && all_named nodes

unfoldable pub is_exportable : Node → Bool
unfolding all_named is_identifier
is_exportable (Node.variable_declaration declarations) = all_named declarations
is_exportable (Node.function_declaration id params body) = is_identifier id
is_exportable _ = false

unfoldable pub is_export_name : Node → Bool
is_export_name (Node.string_literal value) = true
is_export_name (Node.identifier name) = true
is_export_name _ = false

-- The object of a member expression, with the test of it as an expression.
unfoldable pub is_object : Node → Bool → Bool
unfolding has_target
is_object (Node.super extra) expression = has_target extra
is_object _ expression = expression

unfoldable mutual
  unfolding is_binary is_unary is_identifier all_identifiers is_object is_binding is_optional_name
      is_exportable is_export_name is_absent

  pub compiles : Node → Bool
  compiles (Node.program body) = all_compile body
  compiles (Node.string_literal value) = true
  compiles (Node.numeric_literal value) = true
  compiles (Node.boolean_literal value) = true
  compiles Node.null_literal = true
  compiles (Node.identifier name) = true
  compiles Node.this_expression = true
  compiles (Node.expression_statement expression) = compiles expression
  compiles (Node.binary_expression operator left right) =
      compiles left && (compiles right && is_binary operator)
  compiles (Node.unary_expression operator argument) = compiles argument && is_unary operator
  compiles (Node.call_expression callee arguments) = all_compile arguments && compiles callee
  compiles (Node.object_expression properties) = all_properties properties
  compiles (Node.array_expression elements) = all_compile elements
  compiles (Node.member_expression object property computed) =
      is_object object (compiles object)
      && (if computed then compiles property else is_identifier property)
  compiles (Node.assignment_expression AssignmentOperator.assign left right) =
      is_target left (compiles right)
  compiles (Node.variable_declaration declarations) = all_compile declarations
  compiles (Node.variable_declarator id init) =
      (if is_absent init then true else compiles init) && is_binding id
  compiles (Node.function_declaration id params body) =
      is_optional_name id && (all_identifiers params && compiles body)
  compiles (Node.function_expression id params body) =
      is_optional_name id && (all_identifiers params && compiles body)
  compiles (Node.block_statement virtual body) = all_compile body
  compiles (Node.return_statement argument) = if is_absent argument then true else compiles argument
  compiles (Node.if_statement test consequent alternate) =
      compiles test
      && (compiles consequent && (if is_absent alternate then true else compiles alternate))
  compiles (Node.while_statement test body) = compiles test && compiles body
  compiles (Node.export_named_declaration declaration specifiers) =
      (if is_absent declaration then true else compiles declaration && is_exportable declaration)
      && all_specifiers (compiles declaration) specifiers
  compiles (Node.export_default_declaration declaration) = compiles declaration
  compiles _ = false

  pub all_compile : Nodes → Bool
  all_compile Nodes.nil = true
  all_compile (Nodes.cons node nodes) = compiles node && all_compile nodes

  -- The left side of an assignment, with the test of the right one, which a pattern does not need.
  pub is_target : Node → Bool → Bool
  is_target (Node.identifier name) right = right
  is_target (Node.member_expression object property computed) right =
      right && (compiles object && compiles property)
  is_target _ right = true

  pub all_properties : Nodes → Bool
  all_properties Nodes.nil = true
  all_properties (Nodes.cons node nodes) = is_property node && all_properties nodes

  pub is_property : Node → Bool
  is_property (Node.object_property (Node.identifier key) value) = compiles value
  is_property _ = false

  -- The specifiers of an export, with the test of its declaration.
  pub all_specifiers : Bool → Nodes → Bool
  all_specifiers declaration Nodes.nil = true
  all_specifiers declaration (Nodes.cons node nodes) =
      is_specifier declaration node && all_specifiers declaration nodes

  pub is_specifier : Bool → Node → Bool
  is_specifier declaration (Node.export_specifier local exported) =
      compiles local && is_export_name exported
  is_specifier declaration (Node.export_default_specifier exported) = declaration
  is_specifier declaration (Node.export_namespace_specifier exported) = is_identifier exported
  is_specifier declaration _ = false
