-- ===== src/Prelude/Result.antt =====
-- How a run ends: `PANIC` of core/panic.h prints its message and exits; a fault is behaviour that C
-- leaves undefined, such as a read through NULL or outside an array.

-- The texts that the sources pass to PANIC.
pub data Message : Type 0 where
  stack_overflow stack_underflow : Message
  unsupported_operation unknown_operand_type unknown_comparison undefined_value_type : Message
  could_not_update_local symbol_not_found no_parent_scope : Message
  callee_not_function not_valid_pointer target_not_object : Message
  counter_out_of_bounds string_index_out_of_bounds module_not_found : Message
  no_setter no_getter could_not_allocate invalid_magic invalid_version : Message

pub data Result {ℓ} (A : Type ℓ) : Type ℓ where
  ok : A → Result A
  panic : Message → Result A
  fault : Result A

infixl 5 ◌>>=◌
abbrev pub ◌>>=◌ {ℓ κ} : {A : Type ℓ} {B : Type κ} → Result A → (A → Result B) → Result B
ok a >>= f = f a
panic m >>= f = panic m
fault >>= f = fault
