-- ===== src/Loader/Write/Opcodes.antt =====
-- The bytes of atomixc/src/opcodes.ts, and that the loader's switch reads them back.
use atomix_js.Prelude.{ℕ, ◌≡◌, ◌%◌, refl, some}
use atomix_js.Instruction.{Opcode, opcode_of_byte}

unfoldable pub byte_of_opcode : Opcode → ℕ
byte_of_opcode Opcode.op_nop = 0
byte_of_opcode Opcode.op_ld_int = 1
byte_of_opcode Opcode.op_ld_double = 2
byte_of_opcode Opcode.op_ld_string = 3
byte_of_opcode Opcode.op_ld_undf = 4
byte_of_opcode Opcode.op_ld_null = 5
byte_of_opcode Opcode.op_ld_true = 6
byte_of_opcode Opcode.op_ld_false = 7
byte_of_opcode Opcode.op_ld_this = 8
byte_of_opcode Opcode.op_add = 9
byte_of_opcode Opcode.op_minus = 10
byte_of_opcode Opcode.op_mul = 11
byte_of_opcode Opcode.op_div = 12
byte_of_opcode Opcode.op_mod = 13
byte_of_opcode Opcode.op_binary_and = 14
byte_of_opcode Opcode.op_binary_or = 15
byte_of_opcode Opcode.op_binary_xor = 16
byte_of_opcode Opcode.op_binary_lshft = 17
byte_of_opcode Opcode.op_binary_rshft = 18
byte_of_opcode Opcode.op_binary_zrshft = 19
byte_of_opcode Opcode.op_binary_not = 20
byte_of_opcode Opcode.op_not = 21
byte_of_opcode Opcode.op_negate = 22
byte_of_opcode Opcode.op_typeof = 23
byte_of_opcode Opcode.op_teq = 24
byte_of_opcode Opcode.op_nteq = 25
byte_of_opcode Opcode.op_gt = 26
byte_of_opcode Opcode.op_geq = 27
byte_of_opcode Opcode.op_lt = 28
byte_of_opcode Opcode.op_leq = 29
byte_of_opcode Opcode.op_pop = 30
byte_of_opcode Opcode.op_dup = 31
byte_of_opcode Opcode.op_swap = 32
byte_of_opcode Opcode.op_alloc_local = 33
byte_of_opcode Opcode.op_store_local = 34
byte_of_opcode Opcode.op_load_local = 35
byte_of_opcode Opcode.op_load_arg = 36
byte_of_opcode Opcode.op_func_decl = 37
byte_of_opcode Opcode.op_func_decl_e = 38
byte_of_opcode Opcode.op_call = 39
byte_of_opcode Opcode.op_arr_alloc = 40
byte_of_opcode Opcode.op_obj_alloc = 41
byte_of_opcode Opcode.op_obj_store = 42
byte_of_opcode Opcode.op_obj_load = 43
byte_of_opcode Opcode.op_obj_cload = 44
byte_of_opcode Opcode.op_obj_cstore = 45
byte_of_opcode Opcode.op_return = 46
byte_of_opcode Opcode.op_push_scope = 47
byte_of_opcode Opcode.op_pop_scope = 48
byte_of_opcode Opcode.op_jmp = 49
byte_of_opcode Opcode.op_jmp_f = 50
byte_of_opcode Opcode.op_jmp_t = 51
byte_of_opcode Opcode.op_export = 52

pub opcode_of_byte-byte_of_opcode : (o : Opcode) → opcode_of_byte (byte_of_opcode o % 256) ≡ some o
unfolding opcode_of_byte byte_of_opcode
opcode_of_byte-byte_of_opcode Opcode.op_nop = refl
opcode_of_byte-byte_of_opcode Opcode.op_ld_int = refl
opcode_of_byte-byte_of_opcode Opcode.op_ld_double = refl
opcode_of_byte-byte_of_opcode Opcode.op_ld_string = refl
opcode_of_byte-byte_of_opcode Opcode.op_ld_undf = refl
opcode_of_byte-byte_of_opcode Opcode.op_ld_null = refl
opcode_of_byte-byte_of_opcode Opcode.op_ld_true = refl
opcode_of_byte-byte_of_opcode Opcode.op_ld_false = refl
opcode_of_byte-byte_of_opcode Opcode.op_ld_this = refl
opcode_of_byte-byte_of_opcode Opcode.op_add = refl
opcode_of_byte-byte_of_opcode Opcode.op_minus = refl
opcode_of_byte-byte_of_opcode Opcode.op_mul = refl
opcode_of_byte-byte_of_opcode Opcode.op_div = refl
opcode_of_byte-byte_of_opcode Opcode.op_mod = refl
opcode_of_byte-byte_of_opcode Opcode.op_binary_and = refl
opcode_of_byte-byte_of_opcode Opcode.op_binary_or = refl
opcode_of_byte-byte_of_opcode Opcode.op_binary_xor = refl
opcode_of_byte-byte_of_opcode Opcode.op_binary_lshft = refl
opcode_of_byte-byte_of_opcode Opcode.op_binary_rshft = refl
opcode_of_byte-byte_of_opcode Opcode.op_binary_zrshft = refl
opcode_of_byte-byte_of_opcode Opcode.op_binary_not = refl
opcode_of_byte-byte_of_opcode Opcode.op_not = refl
opcode_of_byte-byte_of_opcode Opcode.op_negate = refl
opcode_of_byte-byte_of_opcode Opcode.op_typeof = refl
opcode_of_byte-byte_of_opcode Opcode.op_teq = refl
opcode_of_byte-byte_of_opcode Opcode.op_nteq = refl
opcode_of_byte-byte_of_opcode Opcode.op_gt = refl
opcode_of_byte-byte_of_opcode Opcode.op_geq = refl
opcode_of_byte-byte_of_opcode Opcode.op_lt = refl
opcode_of_byte-byte_of_opcode Opcode.op_leq = refl
opcode_of_byte-byte_of_opcode Opcode.op_pop = refl
opcode_of_byte-byte_of_opcode Opcode.op_dup = refl
opcode_of_byte-byte_of_opcode Opcode.op_swap = refl
opcode_of_byte-byte_of_opcode Opcode.op_alloc_local = refl
opcode_of_byte-byte_of_opcode Opcode.op_store_local = refl
opcode_of_byte-byte_of_opcode Opcode.op_load_local = refl
opcode_of_byte-byte_of_opcode Opcode.op_load_arg = refl
opcode_of_byte-byte_of_opcode Opcode.op_func_decl = refl
opcode_of_byte-byte_of_opcode Opcode.op_func_decl_e = refl
opcode_of_byte-byte_of_opcode Opcode.op_call = refl
opcode_of_byte-byte_of_opcode Opcode.op_arr_alloc = refl
opcode_of_byte-byte_of_opcode Opcode.op_obj_alloc = refl
opcode_of_byte-byte_of_opcode Opcode.op_obj_store = refl
opcode_of_byte-byte_of_opcode Opcode.op_obj_load = refl
opcode_of_byte-byte_of_opcode Opcode.op_obj_cload = refl
opcode_of_byte-byte_of_opcode Opcode.op_obj_cstore = refl
opcode_of_byte-byte_of_opcode Opcode.op_return = refl
opcode_of_byte-byte_of_opcode Opcode.op_push_scope = refl
opcode_of_byte-byte_of_opcode Opcode.op_pop_scope = refl
opcode_of_byte-byte_of_opcode Opcode.op_jmp = refl
opcode_of_byte-byte_of_opcode Opcode.op_jmp_f = refl
opcode_of_byte-byte_of_opcode Opcode.op_jmp_t = refl
opcode_of_byte-byte_of_opcode Opcode.op_export = refl
