-- ===== src/Execution/Objects.antt =====
-- core/execution.c: the handlers for objects, arrays and exports. `call` is what runs getters and
-- setters.
use atomix_js.Prelude.{not, ◌&&◌, if◌then◌else◌}
use atomix_js.Prelude.Result.{target_not_object}
use atomix_js.Value.{JsValue, js_object, js_func, js_symbol, has_type, value_object}
use atomix_js.Instruction.{Inst}
use atomix_js.Vm.{Ptr}
use atomix_js.Vm.Exec.{
  Exec, pure, raise, ◌>>=◌, ◌>>◌, Host, get_vm, peek, poke, push, lower, need, room, deref_function,
  deref_module, deref_string,
}
use atomix_js.Scope.{chain_fuel}
use atomix_js.Object.{
  Caller, object_create_object, object_set_property, object_set_property_with_symbol,
  object_get_property, object_get_property_by_symbol, object_get_object_prototype,
  object_get_array_prototype,
}
use atomix_js.Text.{value_to_string}
use atomix_js.Execution.Locals.{load_key}

-- `stack[--stack_counter]`, behind a test for enough values.
unfoldable pub pop_value : Exec JsValue
unfolding peek lower
pop_value = do v ← peek 1; lower; pure v

-- The object of a value, or the panic on a value that has none; a function has its base object.
unfoldable pub target : JsValue → Exec Ptr
target obj =
    if not (has_type obj js_object) && not (has_type obj js_func)
    then raise target_not_object
    else if has_type obj js_func
    then (do f ← deref_function obj.value; pure f.base)
    else pure obj.value

module _ (h : Host) where
  unfoldable pub inst_arr_alloc : Inst → Exec (Unit {0})
  inst_arr_alloc inst = do
    room
    prototype ← object_get_array_prototype h
    obj ← object_create_object h prototype
    push (value_object obj)

  unfoldable pub inst_obj_alloc : Inst → Exec (Unit {0})
  inst_obj_alloc inst = do
    room
    prototype ← object_get_object_prototype h
    obj ← object_create_object h prototype
    push (value_object obj)

  module _ (call : Caller) where
    unfoldable pub inst_obj_store : Inst → Exec (Unit {0})
    inst_obj_store inst = do
      need 2
      value ← pop_value
      obj ← pop_value
      obj_ptr ← target obj
      key ← load_key h inst.operand
      object_set_property h call obj_ptr key value

    -- The source leaves open whether the slot that is written is computed before the call of a getter
    -- or after it; the model takes the second, here and in `inst_obj_cload`.
    unfoldable pub inst_obj_load : Inst → Exec (Unit {0})
    inst_obj_load inst = do
      need 1
      obj ← peek 1
      obj_ptr ← target obj
      key ← load_key h inst.operand
      fuel ← chain_fuel
      v ← object_get_property call fuel obj_ptr key
      poke 1 v

    unfoldable pub inst_obj_cload : Inst → Exec (Unit {0})
    inst_obj_cload inst = do
      need 2
      computed ← pop_value
      obj ← peek 1
      obj_ptr ← target obj
      if has_type computed js_symbol
          then (do
            fuel ← chain_fuel
            v ← object_get_property_by_symbol call fuel obj_ptr computed.value
            poke 1 v)
          else do
            p ← value_to_string h computed
            key ← deref_string p
            fuel ← chain_fuel
            v ← object_get_property call fuel obj_ptr key
            poke 1 v

    unfoldable pub inst_obj_cstore : Inst → Exec (Unit {0})
    inst_obj_cstore inst = do
      need 3
      computed ← pop_value
      obj ← pop_value
      value ← pop_value
      obj_ptr ← target obj
      if has_type computed js_symbol
          then object_set_property_with_symbol h call obj_ptr computed.value value
          else do
            p ← value_to_string h computed
            key ← deref_string p
            object_set_property h call obj_ptr key value

    unfoldable pub inst_export : Inst → Exec (Unit {0})
    inst_export inst = do
      need 1
      value ← pop_value
      key ← load_key h inst.operand
      vm ← get_vm
      m ← deref_module vm.current
      object_set_property h call m.exports key value
