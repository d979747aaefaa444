-- ===== src/Compiler/Meaning.antt =====
-- What the nodes of a program mean on the machine, without code: a relation of the machines before and
-- behind a node. Names stand for themselves, a branch and a loop for the parts that they run. The
-- declarations of functions and `return` have no meaning here. An operator is the handler of the
-- machine for it, and nothing of the compiler's own tables stands in here.
use atomix_js.Prelude.{ℕ, ◌+◌, ◌%◌, ◌≡◌, Bool, true, false, [], ◌∷◌, Str, str_eq, if◌then◌else◌}
use atomix_js.Prelude.Result.{ok}
use atomix_js.Prelude.Word.{u32_mod}
use atomix_js.Format.{string_table_load_str}
use atomix_js.Instruction.{Opcode, Inst}
use atomix_js.Vm.{Vm, JsModule}
use atomix_js.Vm.Exec.{Host, Exec, ret}
use atomix_js.Execution.Arith
use atomix_js.Execution.Bits
use atomix_js.Execution.Compare
use atomix_js.Execution.Typeof
use atomix_js.Execution.Calls.{Calls}
use atomix_js.Execution.Steps.{at, Here, Does, Tests}
use atomix_js.Compiler.Syntax.{
  BinaryOperator, UnaryOperator, AssignmentOperator, SuperExtra, Node, Nodes,
}
use atomix_js.Compiler.Emit.{Numbers}

abbrev pub Rel : Type 1
Rel = Vm → Vm → Type 0

infixr 5 ◌⨾◌
abbrev pub ◌⨾◌ : Rel → Rel → Rel
◌⨾◌ r q vm vm' = (vm1 : Vm) × r vm vm1 × q vm1 vm'

abbrev pub Same : Rel
Same vm vm' = vm ≡ vm'

abbrev pub Never : Rel
Never vm vm' = ⊥

-- The names that the language gives to what has none in the source text.
abbrev name_length : Str
name_length = b'l' ∷ b'e' ∷ b'n' ∷ b'g' ∷ b't' ∷ b'h' ∷ []

abbrev name_prototype : Str
name_prototype = b'p' ∷ b'r' ∷ b'o' ∷ b't' ∷ b'o' ∷ b't' ∷ b'y' ∷ b'p' ∷ b'e' ∷ []

abbrev name_default : Str
name_default = b'd' ∷ b'e' ∷ b'f' ∷ b'a' ∷ b'u' ∷ b'l' ∷ b't' ∷ []

abbrev name_undefined : Str
name_undefined = b'u' ∷ b'n' ∷ b'd' ∷ b'e' ∷ b'f' ∷ b'i' ∷ b'n' ∷ b'e' ∷ b'd' ∷ []

-- How many children there are.
unfoldable pub arity : Nodes → ℕ
arity Nodes.nil = 0
arity (Nodes.cons node nodes) = 1 + arity nodes

module _ (h : Host) (c : Calls) (m : JsModule) where
  abbrev pub Effect : Opcode → ℕ → Rel
  Effect opcode operand = Does h c m (record { opcode = opcode; operand = operand; operand2 = 0 })

  -- An instruction on a name, at any index where the module has it.
  abbrev pub Named : Opcode → Str → Rel
  Named opcode name vm vm' =
      (idx : ℕ) → string_table_load_str m.string_table idx ≡ ok name → Effect opcode idx vm vm'

  -- A test, and the part that it chooses.
  pub record Branches (test consequent alternate : Rel) (vm vm' : Vm) : Type 0 where
    pub tested : Vm
    pub test_is : test vm tested
    pub is_falsy : Bool
    pub chosen : Vm
    pub chooses : Tests h c m is_falsy tested chosen
    pub ends : (if is_falsy then alternate chosen vm' else (consequent chosen vm' × Here h c m vm'))

  -- The rounds of a loop.
  pub data Iterates (test body : Rel) : Vm → Vm → Type 0 where
    leave :
        {vm tested vm' : Vm}
        → test vm tested
        → Tests h c m true tested vm'
        → Iterates test body vm vm'
    again :
        {vm tested entered next vm' : Vm}
        → test vm tested
        → Tests h c m false tested entered
        → body entered next
        → Here h c m next
        → Iterates test body next vm'
        → Iterates test body vm vm'

  abbrev pub Number : Numbers → ℕ → Rel
  Number js value =
      if js.is_whole value
      then Effect Opcode.op_ld_int (js.to_int32 value)
      else Effect Opcode.op_ld_double value

  abbrev pub Identifier : Str → Rel
  Identifier name =
      if str_eq name name_undefined
      then Effect Opcode.op_ld_undf 0
      else Named Opcode.op_load_local name

  -- What a handler of the machine does, wherever the instruction stands.
  pub record Handles (handler : Inst → Exec (Unit {0})) (vm vm' : Vm) : Type 0 where
    pub here : Here h c m vm
    pub handles : (i : Inst) (k : ℕ) → handler i (at k vm) ≡ ret tt (at k vm')

  abbrev pub Operates : BinaryOperator → Rel
  Operates BinaryOperator.plus = Handles (Arith.inst_add h.platform)
  Operates BinaryOperator.minus = Handles (Arith.inst_minus h.platform)
  Operates BinaryOperator.times = Handles (Arith.inst_mul h.platform)
  Operates BinaryOperator.divide = Handles (Arith.inst_div h.platform)
  Operates BinaryOperator.modulo = Handles (Arith.inst_mod h.platform)
  Operates BinaryOperator.bit_and = Handles (Bits.inst_binary_and h.platform)
  Operates BinaryOperator.bit_or = Handles (Bits.inst_binary_or h.platform)
  Operates BinaryOperator.bit_xor = Handles (Bits.inst_binary_xor h.platform)
  Operates BinaryOperator.shift_left = Handles (Bits.inst_binary_lshft h.platform)
  Operates BinaryOperator.shift_right = Handles (Bits.inst_binary_rshft h.platform)
  Operates BinaryOperator.shift_right_zero = Handles (Bits.inst_binary_zrshft h.platform)
  Operates BinaryOperator.strict_equal = Handles (Compare.inst_teq h.platform)
  Operates BinaryOperator.strict_not_equal = Handles (Compare.inst_nteq h.platform)
  Operates BinaryOperator.greater = Handles (Compare.inst_gt h.platform)
  Operates BinaryOperator.greater_equal = Handles (Compare.inst_geq h.platform)
  Operates BinaryOperator.less = Handles (Compare.inst_lt h.platform)
  Operates BinaryOperator.less_equal = Handles (Compare.inst_leq h.platform)
  Operates BinaryOperator.other = Never

  abbrev pub OperatesUnary : UnaryOperator → Rel
  OperatesUnary UnaryOperator.minus = Handles (Arith.inst_negate h.platform)
  OperatesUnary UnaryOperator.not = Handles (Compare.inst_not h.platform)
  OperatesUnary UnaryOperator.bit_not = Handles (Bits.inst_binary_not h.platform)
  OperatesUnary UnaryOperator.typeof = Handles (Typeof.inst_typeof h)
  OperatesUnary UnaryOperator.void = Effect Opcode.op_pop 0 ⨾ Effect Opcode.op_ld_undf 0
  OperatesUnary UnaryOperator.other = Never

  -- An optional child.
  abbrev pub Optional : Node → Rel → Rel → Rel
  Optional Node.absent missing present = missing
  Optional _ missing present = present

  -- The value of a function declaration is dropped.
  abbrev pub Dropped : Node → Rel
  Dropped (Node.function_declaration id params body) = Effect Opcode.op_pop 0
  Dropped _ = Same

  abbrev pub When : Bool → Rel → Rel
  When b r = if b then r else Same

  abbrev pub LoadsSuper : Bool → SuperExtra → Rel
  LoadsSuper double SuperExtra.missing = Never
  LoadsSuper double (SuperExtra.target [] static) = Never
  LoadsSuper double (SuperExtra.target (x ∷ name) static) =
      When double (Effect Opcode.op_ld_this 0)
      ⨾ Named Opcode.op_load_local (x ∷ name)
      ⨾ (if static then Same else Named Opcode.op_obj_load name_prototype)

  abbrev pub LoadsObject : Node → Rel → Bool → Rel
  LoadsObject (Node.super extra) object double = LoadsSuper double extra
  LoadsObject _ object double = object ⨾ When double (Effect Opcode.op_dup 0)

  abbrev pub LoadsProperty : Node → Rel → Bool → Rel
  LoadsProperty property r true = r ⨾ Effect Opcode.op_obj_cload 0
  LoadsProperty (Node.identifier name) r false = Named Opcode.op_obj_load name
  LoadsProperty _ r false = Never

  abbrev pub StoresMember : Rel → Node → Rel → Bool → Rel
  StoresMember object property r true = object ⨾ r ⨾ Effect Opcode.op_obj_cstore 0
  StoresMember object (Node.identifier name) r false =
      object ⨾ Effect Opcode.op_swap 0 ⨾ Named Opcode.op_obj_store name
  StoresMember object _ r false = object ⨾ r ⨾ Effect Opcode.op_obj_cstore 0

  abbrev pub DeclaresProperties : Nodes → Rel
  DeclaresProperties Nodes.nil = Same
  DeclaresProperties
        (Nodes.cons
          (Node.object_property (Node.identifier key) (Node.identifier value))
          properties) =
      Effect Opcode.op_dup 0
      ⨾ Named Opcode.op_obj_load key
      ⨾ Named Opcode.op_alloc_local value
      ⨾ DeclaresProperties properties
  DeclaresProperties (Nodes.cons _ properties) = Never

  abbrev pub DeclaresId : Node → Rel
  DeclaresId (Node.identifier name) = Named Opcode.op_alloc_local name
  DeclaresId (Node.object_pattern properties) = DeclaresProperties properties
  DeclaresId _ = Never

  abbrev pub ExportsDeclarators : Nodes → Rel
  ExportsDeclarators Nodes.nil = Same
  ExportsDeclarators (Nodes.cons (Node.variable_declarator (Node.identifier name) init) nodes) =
      Identifier name ⨾ Named Opcode.op_export name ⨾ ExportsDeclarators nodes
  ExportsDeclarators (Nodes.cons _ nodes) = Never

  abbrev pub ExportsDeclaration : Node → Rel
  ExportsDeclaration (Node.variable_declaration declarators) = ExportsDeclarators declarators
  ExportsDeclaration (Node.function_declaration (Node.identifier name) params body) =
      Named Opcode.op_export name
  ExportsDeclaration _ = Never

  abbrev pub ExportsName : Node → Rel
  ExportsName (Node.string_literal value) = Named Opcode.op_export value
  ExportsName (Node.identifier name) = Named Opcode.op_export name
  ExportsName _ = Never

  module _ (js : Numbers) where
    unfoldable mutual
      unfolding arity

      -- The machine before a node and the machine behind it.
      pub Evaluates : Node → Rel
      Evaluates (Node.program body) = EvaluatesStatements body
      Evaluates (Node.string_literal value) = Named Opcode.op_ld_string value
      Evaluates (Node.numeric_literal value) = Number js value
      Evaluates (Node.boolean_literal value) =
          Effect (if value then Opcode.op_ld_true else Opcode.op_ld_false) 0
      Evaluates Node.null_literal = Effect Opcode.op_ld_null 0
      Evaluates (Node.identifier name) = Identifier name
      Evaluates Node.this_expression = Effect Opcode.op_ld_this 0
      Evaluates (Node.expression_statement e) = Evaluates e ⨾ Effect Opcode.op_pop 0
      Evaluates (Node.binary_expression operator left right) =
          Evaluates left ⨾ Evaluates right ⨾ Operates operator
      Evaluates (Node.unary_expression operator argument) =
          Evaluates argument ⨾ OperatesUnary operator
      Evaluates (Node.call_expression callee arguments) =
          EvaluatesReversed arguments
          ⨾ EvaluatesCallee callee (Evaluates callee)
          ⨾ Effect Opcode.op_call (arity arguments)
      Evaluates (Node.object_expression properties) =
          Effect Opcode.op_obj_alloc 0 ⨾ EvaluatesProperties properties
      Evaluates (Node.array_expression elements) =
          Effect Opcode.op_arr_alloc 0
          ⨾ Effect Opcode.op_dup 0
          ⨾ Effect Opcode.op_ld_int (arity elements % u32_mod)
          ⨾ Named Opcode.op_obj_store name_length
          ⨾ EvaluatesElements 0 elements
      Evaluates (Node.member_expression object property computed) =
          LoadsObject object (Evaluates object) false
          ⨾ LoadsProperty property (Evaluates property) computed
      Evaluates (Node.assignment_expression AssignmentOperator.assign left right) =
          EvaluatesAssignment left (Evaluates right)
      Evaluates (Node.variable_declaration declarations) = EvaluatesNodes declarations
      Evaluates (Node.variable_declarator id init) =
          Optional init (Effect Opcode.op_ld_undf 0) (Evaluates init) ⨾ DeclaresId id
      Evaluates (Node.block_statement virtual body) =
          (if virtual then Same else Effect Opcode.op_push_scope 0)
          ⨾ EvaluatesStatements body
          ⨾ (if virtual then Same else Effect Opcode.op_pop_scope 0)
      Evaluates (Node.if_statement test consequent alternate) =
          Branches (Evaluates test) (Evaluates consequent)
            (Optional alternate Same (Evaluates alternate))
      Evaluates (Node.while_statement test body) = Iterates (Evaluates test) (Evaluates body)
      Evaluates (Node.export_named_declaration declaration specifiers) =
          Optional declaration Same (Evaluates declaration ⨾ ExportsDeclaration declaration)
          ⨾ EvaluatesSpecifiers (Evaluates declaration) specifiers
      Evaluates (Node.export_default_declaration declaration) =
          Evaluates declaration ⨾ Named Opcode.op_export name_default
      Evaluates _ = Never

      -- A callee, below which stands what will be `this`: the object of a member, else `undefined`.
      pub EvaluatesCallee : Node → Rel → Rel
      EvaluatesCallee (Node.member_expression object property computed) callee =
          LoadsObject object (Evaluates object) true
          ⨾ LoadsProperty property (Evaluates property) computed
      EvaluatesCallee _ callee = Effect Opcode.op_ld_undf 0 ⨾ callee

      pub EvaluatesAssignment : Node → Rel → Rel
      EvaluatesAssignment (Node.identifier name) right =
          right ⨾ Effect Opcode.op_dup 0 ⨾ Named Opcode.op_store_local name
      EvaluatesAssignment (Node.member_expression object property computed) right =
          right
          ⨾ Effect Opcode.op_dup 0
          ⨾ StoresMember (Evaluates object) property (Evaluates property) computed
      EvaluatesAssignment _ right = Never

      pub EvaluatesNodes : Nodes → Rel
      EvaluatesNodes Nodes.nil = Same
      EvaluatesNodes (Nodes.cons node nodes) = Evaluates node ⨾ EvaluatesNodes nodes

      pub EvaluatesReversed : Nodes → Rel
      EvaluatesReversed Nodes.nil = Same
      EvaluatesReversed (Nodes.cons node nodes) = EvaluatesReversed nodes ⨾ Evaluates node

      pub EvaluatesStatements : Nodes → Rel
      EvaluatesStatements Nodes.nil = Same
      EvaluatesStatements (Nodes.cons item items) =
          Evaluates item ⨾ Dropped item ⨾ EvaluatesStatements items

      pub EvaluatesProperties : Nodes → Rel
      EvaluatesProperties Nodes.nil = Same
      EvaluatesProperties (Nodes.cons property properties) =
          EvaluatesProperty property ⨾ EvaluatesProperties properties

      pub EvaluatesProperty : Node → Rel
      EvaluatesProperty (Node.object_property (Node.identifier key) value) =
          Effect Opcode.op_dup 0 ⨾ Evaluates value ⨾ Named Opcode.op_obj_store key
      EvaluatesProperty _ = Never

      pub EvaluatesElements : ℕ → Nodes → Rel
      EvaluatesElements i Nodes.nil = Same
      EvaluatesElements i (Nodes.cons element elements) =
          Effect Opcode.op_dup 0
          ⨾ Evaluates element
          ⨾ Named Opcode.op_obj_store (js.to_string i)
          ⨾ EvaluatesElements (i + 1) elements

      pub EvaluatesSpecifiers : Rel → Nodes → Rel
      EvaluatesSpecifiers declaration Nodes.nil = Same
      EvaluatesSpecifiers declaration (Nodes.cons specifier specifiers) =
          EvaluatesSpecifier declaration specifier ⨾ EvaluatesSpecifiers declaration specifiers

      pub EvaluatesSpecifier : Rel → Node → Rel
      EvaluatesSpecifier declaration (Node.export_specifier local exported) =
          Evaluates local ⨾ ExportsName exported
      EvaluatesSpecifier declaration (Node.export_default_specifier exported) =
          declaration ⨾ Named Opcode.op_export name_default
      EvaluatesSpecifier declaration (Node.export_namespace_specifier (Node.identifier name)) =
          Identifier name ⨾ Named Opcode.op_export name
      EvaluatesSpecifier declaration _ = Never
