-- ===== src/Compiler/Syntax.antt =====
-- The nodes of @babel/types, with the fields that atomixc/src/pipe.ts reads. A tree shares no nodes:
-- the source reverses the arguments of a call in place, which only a second visit of it could tell.
use atomix_js.Prelude.{ℕ, Bool, Str}

pub data BinaryOperator : Type 0 where
  plus minus times divide modulo : BinaryOperator
  bit_and bit_or bit_xor shift_left shift_right shift_right_zero : BinaryOperator
  strict_equal strict_not_equal greater greater_equal less less_equal : BinaryOperator
  other : BinaryOperator

pub data UnaryOperator : Type 0 where
  minus not bit_not typeof void other : UnaryOperator

-- `=`, and the operators such as `+=`.
pub data AssignmentOperator : Type 0 where
  assign : AssignmentOperator
  assign_with : BinaryOperator → AssignmentOperator

-- `extra` of a `super`, where the transformation has set it.
pub data SuperExtra : Type 0 where
  missing : SuperExtra
  target : Str → Bool → SuperExtra

mutual
  -- `absent` is a child that is null or undefined, and `other_node` a node of any other type. The
  -- number of a literal is its 64-bit pattern. The first field of a block is `extra.isVirtual`.
  pub data Node : Type 0 where
    program : Nodes → Node
    string_literal : Str → Node
    numeric_literal : ℕ → Node
    boolean_literal : Bool → Node
    null_literal : Node
    identifier : Str → Node
    this_expression : Node
    expression_statement : Node → Node
    binary_expression : BinaryOperator → Node → Node → Node
    unary_expression : UnaryOperator → Node → Node
    call_expression : Node → Nodes → Node
    object_expression : Nodes → Node
    object_property : Node → Node → Node
    array_expression : Nodes → Node
    member_expression : Node → Node → Bool → Node
    super : SuperExtra → Node
    assignment_expression : AssignmentOperator → Node → Node → Node
    variable_declaration : Nodes → Node
    variable_declarator : Node → Node → Node
    object_pattern : Nodes → Node
    function_declaration : Node → Nodes → Node → Node
    function_expression : Node → Nodes → Node → Node
    block_statement : Bool → Nodes → Node
    return_statement : Node → Node
    if_statement : Node → Node → Node → Node
    while_statement : Node → Node → Node
    export_named_declaration : Node → Nodes → Node
    export_specifier : Node → Node → Node
    export_default_specifier : Node → Node
    export_namespace_specifier : Node → Node
    export_default_declaration : Node → Node
    other_node : Node
    absent : Node

  pub data Nodes : Type 0 where
    nil : Nodes
    cons : Node → Nodes → Nodes
