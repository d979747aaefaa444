-- ===== src/Compiler/Implements/Parts.antt =====
-- The parts of a walk that do not go down the tree implement the parts of the meaning.
use atomix_js.Prelude.{ℕ, ◌≡◌, refl, ap, ◌∙◌, Bool, true, false, List, [], ◌∷◌, Str, str_eq, length}
use atomix_js.Instruction.{Opcode, Inst}
use atomix_js.Loader.Code.{Shape}
use atomix_js.Execution.Run.{inst_set, run_instruction}
use atomix_js.Execution.Steps.{at}
use atomix_js.Vm.{JsModule}
use atomix_js.Vm.Exec.{Host, Exec}
use atomix_js.Execution.Calls.{Calls}
use atomix_js.Compiler.Syntax.{BinaryOperator, UnaryOperator, SuperExtra, Node, Nodes}
use atomix_js.Compiler.Sections.{constant_integer, constant_double}
use atomix_js.Compiler.Emit.{
  Numbers, Pipe, emit, binary_opcode, emit_operator, emit_unary, load_identifier, load_number,
  text_prototype, text_undefined, is_absent, name_of,
}
use atomix_js.Compiler.Pipe.{
  load_super, load_object, load_property, store_member, declare_properties, declare_id,
  export_declarators, export_declaration, export_name,
}
use atomix_js.Compiler.Meaning.{
  Rel, Number, Identifier, Handles, Operates, OperatesUnary, LoadsSuper, LoadsObject, LoadsProperty,
  StoresMember, DeclaresProperties, DeclaresId, ExportsDeclarators, ExportsDeclaration, ExportsName,
}
use atomix_js.Compiler.Implements.{
  Implements, Implements-seq, Implements-nothing, Implements-throw, Implements-weaken,
  Implements-narrow, kind,
}
use atomix_js.Compiler.Implements.Emits.{
  Implements-emit_with, Implements-emit, Implements-known, Implements-register,
  Implements-emit_name, Implements-when, Implements-if,
}

module _ (h : Host) (c : Calls) (m : JsModule) (counted : m.count ≡ length m.instructions) where
  module _ {known : List (ℕ × Str)} where
    pub Implements-number :
        (js : Numbers) (value : ℕ)
        → Implements h c m known (load_number js value) (Number h c m js value)
    unfolding load_number
    Implements-number js value =
        Implements-if h c m counted (js.is_whole value)
          (Implements-emit_with h c m counted Opcode.op_ld_int
            (constant_integer (js.to_int32 value) ∷ []) refl)
          (Implements-emit_with h c m counted Opcode.op_ld_double (constant_double value ∷ []) refl)

    pub Implements-identifier :
        (name : Str) → Implements h c m known (load_identifier name) (Identifier h c m name)
    unfolding load_identifier
    Implements-identifier name =
        Implements-if h c m counted (str_eq name text_undefined)
          (Implements-emit h c m counted Opcode.op_ld_undf refl)
          (Implements-emit_name h c m counted Opcode.op_load_local refl name)

    -- An instruction that a handler of the machine carries out.
    Implements-handler :
        {handler : Inst → Exec (Unit {0})} (opcode : Opcode)
        → kind opcode ≡ Shape.plain
        → ((i : Inst) → inst_set h c opcode i ≡ handler i)
        → Implements h c m known (emit opcode) (Handles h c m handler)
    unfolding run_instruction
    Implements-handler opcode e is =
        Implements-narrow h c m (Implements-emit h c m counted opcode e) λ vm vm' p. record {
          here = p.here;
          does = λ k.
              let i : Inst = record { opcode = opcode; operand = 0; operand2 = 0 } in
              ap (λ run. run (at k vm)) (is i) ∙ p.handles i k;
        }

    pub Implements-operator :
        (o : BinaryOperator)
        → Implements h c m known (emit_operator (binary_opcode o)) (Operates h c m o)
    unfolding emit_operator binary_opcode inst_set
    Implements-operator BinaryOperator.other = Implements-throw h c m _
    Implements-operator _ = Implements-handler _ refl (λ i. refl)

    pub Implements-unary :
        (o : UnaryOperator) → Implements h c m known (emit_unary o) (OperatesUnary h c m o)
    unfolding emit_unary inst_set
    Implements-unary UnaryOperator.void =
        Implements-seq h c m (Implements-emit h c m counted Opcode.op_pop refl)
          (Implements-emit h c m counted Opcode.op_ld_undf refl)
    Implements-unary UnaryOperator.other = Implements-throw h c m _
    Implements-unary _ = Implements-handler _ refl (λ i. refl)

    Implements-super :
        (double : Bool) (extra : SuperExtra)
        → Implements h c m known (load_super double extra) (LoadsSuper h c m double extra)
    unfolding load_super
    Implements-super double SuperExtra.missing = Implements-throw h c m _
    Implements-super double (SuperExtra.target [] static) = Implements-throw h c m _
    Implements-super double (SuperExtra.target (x ∷ name) static) =
        Implements-seq h c m
          (Implements-when h c m counted double
            (Implements-emit h c m counted Opcode.op_ld_this refl))
          (Implements-seq h c m
            (Implements-emit_name h c m counted Opcode.op_load_local refl (x ∷ name))
            (Implements-if h c m counted static (Implements-nothing h c m)
              (Implements-emit_name h c m counted Opcode.op_obj_load refl text_prototype)))

    pub Implements-object :
        {piped : Pipe (Unit {0})} {r : Rel} (object : Node) (double : Bool)
        → Implements h c m known piped r
        → Implements h c m known
            (load_object object piped double)
            (LoadsObject h c m object r double)
    unfolding load_object
    Implements-object (Node.super extra) double i = Implements-super double extra
    Implements-object _ double i =
        Implements-seq h c m i
          (Implements-when h c m counted double (Implements-emit h c m counted Opcode.op_dup refl))

    pub Implements-property :
        {piped : Pipe (Unit {0})} {r : Rel} (property : Node) (computed : Bool)
        → Implements h c m known piped r
        → Implements h c m known
            (load_property property piped computed)
            (LoadsProperty h c m property r computed)
    unfolding load_property
    Implements-property property true i =
        Implements-seq h c m i (Implements-emit h c m counted Opcode.op_obj_cload refl)
    Implements-property (Node.identifier name) false i =
        Implements-emit_name h c m counted Opcode.op_obj_load refl name
    Implements-property _ false i = Implements-throw h c m _

    pub Implements-store :
        {object piped : Pipe (Unit {0})} {o r : Rel} (property : Node) (computed : Bool)
        → Implements h c m known object o
        → Implements h c m known piped r
        → Implements h c m known
            (store_member object property piped computed)
            (StoresMember h c m o property r computed)
    unfolding store_member
    Implements-store property true i j =
        Implements-seq h c m i
          (Implements-seq h c m j (Implements-emit h c m counted Opcode.op_obj_cstore refl))
    Implements-store (Node.identifier name) false i j = Implements-seq h c m i (
        Implements-seq h c m (Implements-emit h c m counted Opcode.op_swap refl)
          (Implements-emit_name h c m counted Opcode.op_obj_store refl name))
    Implements-store _ false i j =
        Implements-seq h c m i
          (Implements-seq h c m j (Implements-emit h c m counted Opcode.op_obj_cstore refl))

  Implements-properties :
      (properties : Nodes)
      → Implements h c m [] (declare_properties properties) (DeclaresProperties h c m properties)
  unfolding declare_properties
  Implements-properties Nodes.nil = Implements-nothing h c m
  Implements-properties
        (Nodes.cons
          (Node.object_property (Node.identifier key) (Node.identifier value))
          properties) =
      Implements-seq h c m (Implements-emit h c m counted Opcode.op_dup refl) (
        Implements-register h c m counted key _ λ k. Implements-register h c m counted value _ λ v.
          Implements-seq h c m
            (Implements-known h c m counted Opcode.op_obj_load refl key k λ strings n. (n.1).0)
            (Implements-seq h c m
              (Implements-known h c m counted Opcode.op_alloc_local refl value v λ strings n. n.0)
              (Implements-weaken h c m (Implements-properties properties))))
  Implements-properties (Nodes.cons _ properties) = Implements-throw h c m _

  pub Implements-id : (id : Node) → Implements h c m [] (declare_id id) (DeclaresId h c m id)
  unfolding declare_id
  Implements-id (Node.identifier name) =
      Implements-emit_name h c m counted Opcode.op_alloc_local refl name
  Implements-id (Node.object_pattern properties) = Implements-properties properties
  Implements-id Node.absent = Implements-throw h c m _
  Implements-id _ = Implements-throw h c m _

  Implements-export_declarators :
      (nodes : Nodes)
      → Implements h c m [] (export_declarators nodes) (ExportsDeclarators h c m nodes)
  unfolding export_declarators
  Implements-export_declarators Nodes.nil = Implements-nothing h c m
  Implements-export_declarators
        (Nodes.cons (Node.variable_declarator (Node.identifier name) init) nodes) =
      Implements-seq h c m (Implements-identifier name) (
        Implements-seq h c m (Implements-emit_name h c m counted Opcode.op_export refl name)
          (Implements-export_declarators nodes))
  Implements-export_declarators (Nodes.cons _ nodes) = Implements-throw h c m _

  pub Implements-export_declaration :
      (declaration : Node)
      → Implements h c m [] (export_declaration declaration) (ExportsDeclaration h c m declaration)
  unfolding export_declaration is_absent name_of
  Implements-export_declaration (Node.variable_declaration nodes) =
      Implements-export_declarators nodes
  Implements-export_declaration (Node.function_declaration (Node.identifier name) params body) =
      Implements-emit_name h c m counted Opcode.op_export refl name
  Implements-export_declaration (Node.function_declaration _ params body) = Implements-throw h c m _
  Implements-export_declaration _ = Implements-throw h c m _

  pub Implements-export_name :
      (exported : Node) → Implements h c m [] (export_name exported) (ExportsName h c m exported)
  unfolding export_name name_of
  Implements-export_name (Node.string_literal value) =
      Implements-emit_name h c m counted Opcode.op_export refl value
  Implements-export_name (Node.identifier name) =
      Implements-emit_name h c m counted Opcode.op_export refl name
  Implements-export_name _ = Implements-throw h c m _
