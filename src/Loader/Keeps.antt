-- ===== src/Loader/Keeps.antt =====
-- Loading a file keeps every invariant of the registers and the stack.
use atomix_js.Prelude.{ℕ, zero, suc, Option, none, some}
use atomix_js.Instruction.{Opcode}
use atomix_js.Vm.{Vm, Ptr}
use atomix_js.Vm.Exec.{Host, panic_if}
use atomix_js.Prelude.Result.{Message}
use atomix_js.Prelude.{Bool, true, false}
use atomix_js.Vm.Keeps.{
  Keeps, IsBlind, keeps_rules, Ends-bind, returned, by_panic, gc_malloc-Keeps,
  gc_malloc_checked-Keeps, gc_malloc_unchecked-Keeps, deref_module-Keeps, put_module-Keeps,
  put_bundle-Keeps,
}
use atomix_js.Scope.Keeps.{scope_create_scope-Keeps}
use atomix_js.Object.Keeps.{object_create_object-Keeps, object_get_object_prototype-Keeps}
use atomix_js.Loader.Bytes.{Buffer}
use atomix_js.Loader.Code.{
  Shape, skipped, plain, int32, double64, uint16, two_uint16, load_operand, load_shape, load_opcode,
  load_instruction, load_instructions, load_data_section, shape,
}
use atomix_js.Loader.Files.{
  check_header, module_load_from_buffer_offset, module_load_from_buffer, load_modules,
  bundle_load_from_buffer, unknown_load_from_buffer,
}
use atomix_js.Loader.Strings.{load_string_table}

module _ {I : Vm → Type 0} (blind : IsBlind I) where
  panic_if-Keeps : (b : Bool) (m : Message) → Keeps I (panic_if b m)
  panic_if-Keeps true m vm i = by_panic
  panic_if-Keeps false m vm i = returned i

  ruleset loader_rules = (
    keeps_rules, gc_malloc-Keeps, gc_malloc_checked-Keeps, gc_malloc_unchecked-Keeps,
    deref_module-Keeps, put_module-Keeps, put_bundle-Keeps, scope_create_scope-Keeps,
    object_create_object-Keeps, object_get_object_prototype-Keeps, panic_if-Keeps,
  )

  module _ (h : Host) (buff : Buffer) where
    load_operand-Keeps : (n : ℕ) (o : Opcode) (p : ℕ) → Keeps I (load_operand h buff n o p)
    unfolding load_operand
    load_operand-Keeps n o p vm i = search (loader_rules, blind) depth 12

    load_shape-Keeps : (s : Shape) (o : Opcode) (p : ℕ) → Keeps I (load_shape h buff s o p)
    unfolding load_shape
    load_shape-Keeps skipped o p vm i = returned i
    load_shape-Keeps plain o p vm i = search (loader_rules, blind) depth 12
    load_shape-Keeps int32 o p vm i = load_operand-Keeps 4 o p vm i
    load_shape-Keeps double64 o p vm i = load_operand-Keeps 8 o p vm i
    load_shape-Keeps uint16 o p vm i = load_operand-Keeps 2 o p vm i
    load_shape-Keeps two_uint16 o p vm i = search (loader_rules, blind) depth 12

    load_opcode-Keeps : (o : Option Opcode) (p : ℕ) → Keeps I (load_opcode h buff o p)
    unfolding load_opcode
    load_opcode-Keeps none p vm i = returned i
    load_opcode-Keeps (some o) p vm i = load_shape-Keeps (shape o) o p vm i

    load_instruction-Keeps : (p : ℕ) → Keeps I (load_instruction h buff p)
    unfolding load_instruction
    load_instruction-Keeps p vm i = search (loader_rules, load_opcode-Keeps) depth 8

    load_instructions-Keeps : (n p : ℕ) → Keeps I (load_instructions h buff n p)
    unfolding load_instructions
    load_instructions-Keeps zero p vm i = returned i
    load_instructions-Keeps (suc n) p vm i = Ends-bind (load_instruction-Keeps p vm i) λ loaded.
        λ w j. Ends-bind (load_instructions-Keeps n loaded.1 w j) λ rest. λ w1 k. returned k

    load_data_section-Keeps : (p : ℕ) → Keeps I (load_data_section h buff p)
    unfolding load_data_section
    load_data_section-Keeps p vm i = search (loader_rules, blind, load_instructions-Keeps) depth 16

    load_string_table-Keeps : (p : ℕ) → Keeps I (load_string_table h buff p)
    unfolding load_string_table
    load_string_table-Keeps p vm i = search (loader_rules, blind) depth 16

    check_header-Keeps : (m v p : ℕ) → Keeps I (check_header h buff m v p)
    unfolding check_header
    check_header-Keeps m v p vm i = search (loader_rules) depth 12

    module_load_from_buffer_offset-Keeps :
        (m : Ptr) (p : ℕ) → Keeps I (module_load_from_buffer_offset h buff m p)
    unfolding module_load_from_buffer_offset
    module_load_from_buffer_offset-Keeps m p vm i =
        search
          (
            loader_rules, blind, check_header-Keeps, load_data_section-Keeps,
            load_string_table-Keeps,
          )
          depth 24

    module_load_from_buffer-Keeps : (m : Ptr) → Keeps I (module_load_from_buffer h buff m)
    unfolding module_load_from_buffer
    module_load_from_buffer-Keeps m vm i =
        search (loader_rules, module_load_from_buffer_offset-Keeps) depth 8

    load_modules-Keeps : (n : ℕ) (b m : Ptr) (p : ℕ) → Keeps I (load_modules h buff n b m p)
    unfolding load_modules
    load_modules-Keeps zero b m p vm i = returned i
    load_modules-Keeps (suc n) b m p vm i =
        Ends-bind (module_load_from_buffer_offset-Keeps m p vm i) λ next. λ w1 i1.
          Ends-bind (deref_module-Keeps blind m w1 i1) λ loaded.
            λ w2 i2. Ends-bind (put_module-Keeps blind m _ w2 i2) λ u. load_modules-Keeps n b _ next

    bundle_load_from_buffer-Keeps : (b : Ptr) → Keeps I (bundle_load_from_buffer h buff b)
    unfolding bundle_load_from_buffer
    bundle_load_from_buffer-Keeps b vm i =
        search (loader_rules, blind, check_header-Keeps, load_modules-Keeps) depth 20

    pub unknown_load_from_buffer-Keeps : (m b : Ptr) → Keeps I (unknown_load_from_buffer h buff m b)
    unfolding unknown_load_from_buffer
    unknown_load_from_buffer-Keeps m b vm i =
        search (loader_rules, module_load_from_buffer-Keeps, bundle_load_from_buffer-Keeps) depth 12
