-- ===== src/Compiler/Pipe.antt =====
-- atomixc/src/pipe.ts: the walk over the tree that fills the sections of a module.
use atomix_js.Prelude.{
  ℕ, ◌+◌, ◌-◌, ◌%◌, Bool, true, false, Option, none, some, [], ◌∷◌, if◌then◌else◌,
}
use atomix_js.Prelude.Word.{u32_mod}
use atomix_js.Instruction.{Opcode}
use atomix_js.Compiler.Syntax.{AssignmentOperator, SuperExtra, Node, Nodes}
use atomix_js.Compiler.Sections.{
  constant_integer, constant_short, new_data_section, new_stable_section,
}
use atomix_js.Compiler.Emit.{
  Thrown, Piped, Pipe, ◌>>=◌, ◌>>◌, pure, throw, register, add, emit_with, emit, emit_short,
  emit_name, replace, get_count, Numbers, text_length, text_prototype, text_default, binary_opcode,
  emit_operator, emit_unary, load_identifier, load_number, is_absent, is_member,
  is_function_declaration, count_nodes, name_of,
}

-- `super.x` starts from the class that the transformation has noted, or from its prototype.
unfoldable pub load_super : Bool → SuperExtra → Pipe (Unit {0})
load_super double SuperExtra.missing = throw Thrown.missing_meta_data
load_super double (SuperExtra.target [] static) = throw Thrown.missing_meta_data
load_super double (SuperExtra.target (c ∷ name) static) = do
  if double then emit Opcode.op_ld_this else pure tt
  emit_name Opcode.op_load_local (c ∷ name)
  if static then pure tt else emit_name Opcode.op_obj_load text_prototype

-- The object of a member expression, a second time where it is `this` of a call. `piped` is the walk
-- over it.
unfoldable pub load_object : Node → Pipe (Unit {0}) → Bool → Pipe (Unit {0})
unfolding load_super
load_object (Node.super extra) piped double = load_super double extra
load_object _ piped double = do piped; if double then emit Opcode.op_dup else pure tt

unfoldable pub load_property : Node → Pipe (Unit {0}) → Bool → Pipe (Unit {0})
load_property property piped true = do piped; emit Opcode.op_obj_cload
load_property (Node.identifier name) piped false = emit_name Opcode.op_obj_load name
load_property _ piped false = throw Thrown.undefined_property

-- What an assignment to a member does with the value and its copy.
unfoldable pub store_member : Pipe (Unit {0}) → Node → Pipe (Unit {0}) → Bool → Pipe (Unit {0})
store_member object property piped true = do object; piped; emit Opcode.op_obj_cstore
store_member object (Node.identifier name) piped false = do
  object
  emit Opcode.op_swap
  emit_name Opcode.op_obj_store name
store_member object property piped false = do object; piped; emit Opcode.op_obj_cstore

-- The declarations `const {key: value} = ...`
unfoldable pub declare_properties : Nodes → Pipe (Unit {0})
declare_properties Nodes.nil = pure tt
declare_properties
      (Nodes.cons (Node.object_property (Node.identifier key) (Node.identifier value)) properties) =
    do
      emit Opcode.op_dup
      key_idx ← register key
      value_idx ← register value
      emit_short Opcode.op_obj_load key_idx
      emit_short Opcode.op_alloc_local value_idx
      declare_properties properties
declare_properties (Nodes.cons _ properties) = throw Thrown.unsupported_property_type

unfoldable pub declare_id : Node → Pipe (Unit {0})
unfolding declare_properties
declare_id (Node.identifier name) = emit_name Opcode.op_alloc_local name
declare_id (Node.object_pattern properties) = declare_properties properties
declare_id Node.absent = throw Thrown.type_error
declare_id _ = throw Thrown.unsupported_identifier

-- The parameters from the i-th on.
unfoldable pub declare_params : ℕ → Nodes → Pipe (Unit {0})
declare_params i Nodes.nil = pure tt
declare_params i (Nodes.cons (Node.identifier name) params) = do
  emit_short Opcode.op_load_arg (i + 1)
  emit_name Opcode.op_alloc_local name
  declare_params (i + 1) params
declare_params i (Nodes.cons _ params) = throw Thrown.unsupported_param_type

-- The index of the name of a function, if it has one.
unfoldable pub register_id : Node → Pipe (Option ℕ)
unfolding is_absent name_of
register_id id =
    if is_absent id then pure none else do name ← name_of id; idx ← register name; pure (some idx)

unfoldable pub replace_function : ℕ → ℕ → Option ℕ → Pipe (Unit {0})
replace_function start end (some idx) =
    replace start Opcode.op_func_decl (constant_short idx ∷ constant_short (end - start - 1) ∷ [])
replace_function start end none =
    replace start Opcode.op_func_decl_e (constant_short (end - start - 1) ∷ [])

unfoldable pub pipe_function : Node → Nodes → Pipe (Unit {0}) → Pipe (Unit {0})
unfolding register_id replace_function declare_params
pipe_function id params body = do
  start ← add Opcode.op_nop []
  idx ← register_id id
  declare_params 0 params
  body
  end ← get_count
  replace_function start end idx

unfoldable pub export_declarators : Nodes → Pipe (Unit {0})
unfolding load_identifier
export_declarators Nodes.nil = pure tt
export_declarators (Nodes.cons (Node.variable_declarator (Node.identifier name) init) declarators) =
    do load_identifier name; emit_name Opcode.op_export name; export_declarators declarators
export_declarators (Nodes.cons _ declarators) = throw Thrown.unexpected_variable_id

unfoldable pub export_declaration : Node → Pipe (Unit {0})
unfolding export_declarators is_absent name_of
export_declaration (Node.variable_declaration declarators) = export_declarators declarators
export_declaration (Node.function_declaration id params body) =
    if is_absent id
    then throw Thrown.missing_declaration_id
    else do name ← name_of id; emit_name Opcode.op_export name
export_declaration _ = throw Thrown.unsupported_declaration_type

unfoldable pub export_name : Node → Pipe (Unit {0})
unfolding name_of
export_name (Node.string_literal value) = emit_name Opcode.op_export value
export_name exported = do name ← name_of exported; emit_name Opcode.op_export name

module _ (js : Numbers) where
  unfoldable mutual
    unfolding load_number load_identifier binary_opcode emit_operator emit_unary load_object
        load_property store_member declare_id pipe_function export_declaration export_name is_absent
        is_member is_function_declaration count_nodes name_of

    -- `pipeNode`
    pub pipe_node : Node → Pipe (Unit {0})
    pipe_node (Node.program body) = pipe_statements body
    pipe_node (Node.string_literal value) = emit_name Opcode.op_ld_string value
    pipe_node (Node.numeric_literal value) = load_number js value
    pipe_node (Node.boolean_literal value) =
        emit (if value then Opcode.op_ld_true else Opcode.op_ld_false)
    pipe_node Node.null_literal = emit Opcode.op_ld_null
    pipe_node (Node.identifier name) = load_identifier name
    pipe_node Node.this_expression = emit Opcode.op_ld_this
    pipe_node (Node.expression_statement expression) = do pipe_node expression; emit Opcode.op_pop
    pipe_node (Node.binary_expression operator left right) = do
      pipe_node left
      pipe_node right
      emit_operator (binary_opcode operator)
    pipe_node (Node.unary_expression operator argument) = do pipe_node argument; emit_unary operator
    pipe_node (Node.call_expression callee arguments) = do
      pipe_reversed arguments
      if is_member callee then pipe_target callee else (do emit Opcode.op_ld_undf; pipe_node callee)
      emit_short Opcode.op_call (count_nodes arguments)
    pipe_node (Node.object_expression properties) = do
      emit Opcode.op_obj_alloc
      pipe_properties properties
    pipe_node (Node.array_expression elements) = do
      emit Opcode.op_arr_alloc
      emit Opcode.op_dup
      idx ← register text_length
      emit_with Opcode.op_ld_int (constant_integer (count_nodes elements % u32_mod) ∷ [])
      emit_short Opcode.op_obj_store idx
      pipe_elements 0 elements
    pipe_node (Node.member_expression object property computed) = do
      load_object object (pipe_node object) false
      load_property property (pipe_node property) computed
    pipe_node (Node.assignment_expression AssignmentOperator.assign left right) =
        pipe_assignment left (pipe_node right)
    pipe_node (Node.assignment_expression (AssignmentOperator.assign_with operator) left right) =
        throw Thrown.unsupported_operator
    pipe_node (Node.variable_declaration declarations) = pipe_nodes declarations
    pipe_node (Node.variable_declarator id init) = do
      if is_absent init then emit Opcode.op_ld_undf else pipe_node init
      declare_id id
    pipe_node (Node.function_declaration id params body) = pipe_function id params (pipe_node body)
    pipe_node (Node.function_expression id params body) = pipe_function id params (pipe_node body)
    pipe_node (Node.block_statement virtual body) = do
      if virtual then pure tt else emit Opcode.op_push_scope
      pipe_statements body
      if virtual then pure tt else emit Opcode.op_pop_scope
    pipe_node (Node.return_statement argument) = do
      if is_absent argument then pure tt else pipe_node argument
      emit Opcode.op_return
    pipe_node (Node.if_statement test consequent alternate) = do
      pipe_node test
      jump_to_else ← add Opcode.op_nop []
      pipe_node consequent
      if is_absent alternate
          then (do end ← get_count; replace jump_to_else Opcode.op_jmp_f (constant_short end ∷ []))
          else (do
            jump_to_end ← add Opcode.op_nop []
            replace jump_to_else Opcode.op_jmp_f (constant_short (jump_to_end + 1) ∷ [])
            pipe_node alternate
            end ← get_count
            replace jump_to_end Opcode.op_jmp (constant_short end ∷ []))
    pipe_node (Node.while_statement test body) = do
      start ← get_count
      pipe_node test
      jump_to_end ← add Opcode.op_pop []
      pipe_node body
      emit_short Opcode.op_jmp start
      end ← get_count
      replace jump_to_end Opcode.op_jmp_f (constant_short end ∷ [])
    pipe_node (Node.export_named_declaration declaration specifiers) = do
      if is_absent declaration
          then pure tt
          else (do pipe_node declaration; export_declaration declaration)
      pipe_specifiers (pipe_node declaration) specifiers
    pipe_node (Node.export_default_declaration declaration) = do
      pipe_node declaration
      emit_name Opcode.op_export text_default
    pipe_node Node.absent = throw Thrown.type_error
    pipe_node _ = throw Thrown.not_in_the_pipe

    -- A callee that is a member expression: `pipeMemberExpression` with the object kept for `this`.
    pub pipe_target : Node → Pipe (Unit {0})
    pipe_target (Node.member_expression object property computed) = do
      load_object object (pipe_node object) true
      load_property property (pipe_node property) computed
    pipe_target _ = throw Thrown.type_error

    pub pipe_assignment : Node → Pipe (Unit {0}) → Pipe (Unit {0})
    pipe_assignment (Node.identifier name) right = do
      right
      emit Opcode.op_dup
      emit_name Opcode.op_store_local name
    pipe_assignment (Node.member_expression object property computed) right = do
      right
      emit Opcode.op_dup
      store_member (pipe_node object) property (pipe_node property) computed
    pipe_assignment _ right = pure tt

    pub pipe_nodes : Nodes → Pipe (Unit {0})
    pipe_nodes Nodes.nil = pure tt
    pipe_nodes (Nodes.cons node nodes) = do pipe_node node; pipe_nodes nodes

    pub pipe_reversed : Nodes → Pipe (Unit {0})
    pipe_reversed Nodes.nil = pure tt
    pipe_reversed (Nodes.cons node nodes) = do pipe_reversed nodes; pipe_node node

    -- The items of a program or a block.
    pub pipe_statements : Nodes → Pipe (Unit {0})
    pipe_statements Nodes.nil = pure tt
    pipe_statements (Nodes.cons item items) = do
      pipe_node item
      if is_function_declaration item then emit Opcode.op_pop else pure tt
      pipe_statements items

    pub pipe_properties : Nodes → Pipe (Unit {0})
    pipe_properties Nodes.nil = pure tt
    pipe_properties (Nodes.cons property properties) = do
      pipe_property property
      pipe_properties properties

    -- An item that is no property throws; with which of the two errors depends on its key, which the
    -- tree does not keep.
    pub pipe_property : Node → Pipe (Unit {0})
    pipe_property (Node.object_property (Node.identifier key) value) = do
      emit Opcode.op_dup
      idx ← register key
      pipe_node value
      emit_short Opcode.op_obj_store idx
    pipe_property (Node.object_property Node.absent value) = throw Thrown.type_error
    pipe_property (Node.object_property key value) = throw Thrown.undefined_key_type
    pipe_property _ = throw Thrown.type_error

    -- The elements from the i-th on.
    pub pipe_elements : ℕ → Nodes → Pipe (Unit {0})
    pipe_elements i Nodes.nil = pure tt
    pipe_elements i (Nodes.cons element elements) = do
      emit Opcode.op_dup
      pipe_node element
      emit_name Opcode.op_obj_store (js.to_string i)
      pipe_elements (i + 1) elements

    -- The specifiers of an export; `declaration` is the walk over its declaration.
    pub pipe_specifiers : Pipe (Unit {0}) → Nodes → Pipe (Unit {0})
    pipe_specifiers declaration Nodes.nil = pure tt
    pipe_specifiers declaration (Nodes.cons specifier specifiers) = do
      pipe_specifier declaration specifier
      pipe_specifiers declaration specifiers

    pub pipe_specifier : Pipe (Unit {0}) → Node → Pipe (Unit {0})
    pipe_specifier declaration (Node.export_specifier local exported) = do
      pipe_node local
      export_name exported
    pipe_specifier declaration (Node.export_default_specifier exported) = do
      declaration
      emit_name Opcode.op_export text_default
    pipe_specifier declaration (Node.export_namespace_specifier exported) = do
      pipe_node exported
      name ← name_of exported
      emit_name Opcode.op_export name
    pipe_specifier declaration _ = throw Thrown.type_error

  -- `beginPipe` on the empty sections of `parseFile`.
  unfoldable pub begin_pipe : Node → Piped (Unit {0})
  unfolding pipe_node new_stable_section new_data_section
  begin_pipe node =
      pipe_node node (record { stable = new_stable_section; data_section = new_data_section })
