-- ===== src/Instruction.antt =====
-- core/instruction.impl.h: the opcodes, and the instruction structs that begin with one. `operand`
-- and `operand2` stand for the fields of InstInt32, InstDouble, InstUInt16 and Inst2UInt16; a
-- struct without them has zeros there.
use atomix_js.Prelude.{ℕ, Option, List, [], ◌∷◌, get_elem?}

pub data Opcode : Type 0 where
  op_nop op_ld_int op_ld_double op_ld_string op_ld_undf op_ld_null op_ld_true op_ld_false : Opcode
  op_ld_this op_add op_minus op_mul op_div op_mod : Opcode
  op_binary_and op_binary_or op_binary_xor op_binary_lshft op_binary_rshft : Opcode
  op_binary_zrshft op_binary_not op_not op_negate op_typeof : Opcode
  op_teq op_nteq op_gt op_geq op_lt op_leq op_pop op_dup op_swap : Opcode
  op_alloc_local op_store_local op_load_local op_load_arg : Opcode
  op_func_decl op_func_decl_e op_call op_arr_alloc op_obj_alloc : Opcode
  op_obj_store op_obj_load op_obj_cload op_obj_cstore op_return : Opcode
  op_push_scope op_pop_scope op_jmp op_jmp_f op_jmp_t op_export : Opcode

-- The enumerators in order: an opcode's number is its position.
abbrev pub opcodes : List Opcode
opcodes =
    op_nop ∷ op_ld_int ∷ op_ld_double ∷ op_ld_string ∷ op_ld_undf ∷ op_ld_null ∷ op_ld_true
    ∷ op_ld_false ∷ op_ld_this ∷ op_add ∷ op_minus ∷ op_mul ∷ op_div ∷ op_mod ∷ op_binary_and
    ∷ op_binary_or ∷ op_binary_xor ∷ op_binary_lshft ∷ op_binary_rshft ∷ op_binary_zrshft
    ∷ op_binary_not ∷ op_not ∷ op_negate ∷ op_typeof ∷ op_teq ∷ op_nteq ∷ op_gt ∷ op_geq ∷ op_lt
    ∷ op_leq ∷ op_pop ∷ op_dup ∷ op_swap ∷ op_alloc_local ∷ op_store_local ∷ op_load_local
    ∷ op_load_arg ∷ op_func_decl ∷ op_func_decl_e ∷ op_call ∷ op_arr_alloc ∷ op_obj_alloc
    ∷ op_obj_store ∷ op_obj_load ∷ op_obj_cload ∷ op_obj_cstore ∷ op_return ∷ op_push_scope
    ∷ op_pop_scope ∷ op_jmp ∷ op_jmp_f ∷ op_jmp_t ∷ op_export ∷ []

-- `none` for a byte that is no opcode.
unfoldable pub opcode_of_byte : ℕ → Option Opcode
opcode_of_byte b = get_elem? opcodes b

pub record Inst : Type 0 where
  pub opcode : Opcode
  pub operand : ℕ
  pub operand2 : ℕ
