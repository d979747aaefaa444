-- ===== src/Compiler/Accepts/Decides/Parts.antt =====
-- When the parts of the walk throw: operators, names, members and declarations.
use atomix_js.Prelude.{
  ℕ, ◌+◌, ◌≡◌, refl, ap, ◌∙◌, sym, Bool, true, false, [], ◌∷◌, ◌&&◌, if◌then◌else◌, str_eq,
}
use atomix_js.Compiler.Syntax.{BinaryOperator, UnaryOperator, SuperExtra, Node, Nodes}
use atomix_js.Compiler.Emit.{
  Pipe, Numbers, text_undefined, binary_opcode, emit_operator, emit_unary, load_identifier,
  load_number, is_absent, name_of,
}
use atomix_js.Compiler.Pipe.{
  load_super, load_object, load_property, store_member, declare_properties, declare_id,
  declare_params, register_id, export_declarators, export_declaration, export_name,
}
use atomix_js.Compiler.Accepts.{
  is_binary, is_unary, is_identifier, all_identifiers, has_target, is_renaming, all_renamings,
  is_binding, is_optional_name, is_named, all_named, is_exportable, is_export_name, is_object,
}
use atomix_js.Compiler.Accepts.Decides.{
  Decides, Decides-when, Decides-seq, Decides-last, Decides-pure, Decides-throw, Decides-either,
  Decides-emit, Decides-register, Decides-name, &&-true,
}

pub Decides-number : (js : Numbers) (value : ℕ) → Decides true (load_number js value)
unfolding load_number
Decides-number js value = Decides-either (js.is_whole value) (Decides-emit _ _) (Decides-emit _ _)

pub Decides-identifier : (name : _) → Decides true (load_identifier name)
unfolding load_identifier
Decides-identifier name =
    Decides-either (str_eq name text_undefined) (Decides-emit _ _) (Decides-name _ name)

pub Decides-operator :
    (operator : BinaryOperator)
    → Decides (is_binary operator) (emit_operator (binary_opcode operator))
unfolding emit_operator binary_opcode is_binary
Decides-operator BinaryOperator.other = Decides-throw _
Decides-operator _ = Decides-emit _ []

pub Decides-unary : (operator : UnaryOperator) → Decides (is_unary operator) (emit_unary operator)
unfolding emit_unary is_unary
Decides-unary UnaryOperator.other = Decides-throw _
Decides-unary UnaryOperator.void = Decides-seq (Decides-emit _ _) (Decides-emit _ _)
Decides-unary _ = Decides-emit _ []

Decides-super :
    (double : Bool) (extra : SuperExtra) → Decides (has_target extra) (load_super double extra)
unfolding load_super has_target
Decides-super double SuperExtra.missing = Decides-throw _
Decides-super double (SuperExtra.target [] static) = Decides-throw _
Decides-super double (SuperExtra.target (c ∷ name) static) =
    Decides-seq (Decides-either double (Decides-emit _ _) Decides-pure)
      (Decides-seq (Decides-name _ _) (Decides-either static Decides-pure (Decides-name _ _)))

pub Decides-object :
    {b : Bool} {walk : Pipe (Unit {0})} (object : Node) (double : Bool)
    → Decides b walk
    → Decides (is_object object b) (load_object object walk double)
unfolding load_object is_object
Decides-object (Node.super extra) double d = Decides-super double extra
Decides-object _ double d = Decides-last d (Decides-either double (Decides-emit _ _) Decides-pure)

pub Decides-property :
    {b : Bool} {walk : Pipe (Unit {0})} (property : Node) (computed : Bool)
    → Decides b walk
    → Decides
        (if computed then b else is_identifier property)
        (load_property property walk computed)
unfolding load_property is_identifier
Decides-property property true d = Decides-last d (Decides-emit _ _)
Decides-property (Node.identifier name) false d = Decides-name _ name
Decides-property _ false d = Decides-throw _

pub Decides-store :
    {b c : Bool} {object piped : Pipe (Unit {0})} (property : Node) (computed : Bool)
    → Decides b object
    → Decides c piped
    → (is_identifier property ≡ true → c ≡ true)
    → Decides (b && c) (store_member object property piped computed)
unfolding store_member is_identifier
Decides-store property true d e plain = Decides-seq d (Decides-last e (Decides-emit _ _))
Decides-store {b} (Node.identifier name) false d e plain =
    Decides-when (Decides-last d (Decides-seq (Decides-emit _ _) (Decides-name _ name)))
      (sym (ap (λ x. b && x) (plain refl) ∙ &&-true b))
Decides-store _ false d e plain = Decides-seq d (Decides-last e (Decides-emit _ _))

Decides-renamings :
    (properties : Nodes) → Decides (all_renamings properties) (declare_properties properties)
unfolding declare_properties all_renamings is_renaming is_identifier
Decides-renamings Nodes.nil = Decides-pure
Decides-renamings
      (Nodes.cons (Node.object_property (Node.identifier key) (Node.identifier value)) properties) =
    Decides-seq (Decides-emit _ _) (
      Decides-register key λ k. Decides-register value λ v.
        Decides-seq (Decides-emit _ _)
          (Decides-seq (Decides-emit _ _) (Decides-renamings properties)))
Decides-renamings (Nodes.cons _ properties) = Decides-throw _

pub Decides-binding : (id : Node) → Decides (is_binding id) (declare_id id)
unfolding declare_id is_binding
Decides-binding (Node.identifier name) = Decides-name _ name
Decides-binding (Node.object_pattern properties) = Decides-renamings properties
Decides-binding _ = Decides-throw _

pub Decides-params :
    (i : ℕ) (params : Nodes) → Decides (all_identifiers params) (declare_params i params)
unfolding declare_params all_identifiers is_identifier
Decides-params i Nodes.nil = Decides-pure
Decides-params i (Nodes.cons (Node.identifier name) params) =
    Decides-seq (Decides-emit _ _)
      (Decides-seq (Decides-name _ name) (Decides-params (i + 1) params))
Decides-params i (Nodes.cons _ params) = Decides-throw _

pub Decides-id : (id : Node) → Decides (is_optional_name id) (register_id id)
unfolding register_id is_absent name_of is_optional_name is_identifier
Decides-id Node.absent = Decides-pure
Decides-id (Node.identifier name) = Decides-register name λ idx. Decides-pure
Decides-id _ = Decides-throw _

Decides-declarators :
    (declarators : Nodes) → Decides (all_named declarators) (export_declarators declarators)
unfolding export_declarators all_named is_named is_identifier
Decides-declarators Nodes.nil = Decides-pure
Decides-declarators
      (Nodes.cons (Node.variable_declarator (Node.identifier name) init) declarators) =
    Decides-seq (Decides-identifier name)
      (Decides-seq (Decides-name _ name) (Decides-declarators declarators))
Decides-declarators (Nodes.cons _ declarators) = Decides-throw _

pub Decides-exported :
    (declaration : Node) → Decides (is_exportable declaration) (export_declaration declaration)
unfolding export_declaration is_exportable is_identifier is_absent name_of
Decides-exported (Node.variable_declaration declarators) = Decides-declarators declarators
Decides-exported (Node.function_declaration Node.absent params body) = Decides-throw _
Decides-exported (Node.function_declaration (Node.identifier name) params body) =
    Decides-name _ name
Decides-exported (Node.function_declaration _ params body) = Decides-throw _
Decides-exported _ = Decides-throw _

pub Decides-export_name :
    (exported : Node) → Decides (is_export_name exported) (export_name exported)
unfolding export_name is_export_name name_of
Decides-export_name (Node.string_literal value) = Decides-name _ value
Decides-export_name (Node.identifier name) = Decides-name _ name
Decides-export_name _ = Decides-throw _
