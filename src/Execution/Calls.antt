-- ===== src/Execution/Calls.antt =====
-- `api_call_function` of core/api.c and `inst_call` of core/execution.c. `run` is
-- `vm_exec_function`; `native` calls a native function through its pointer.
use atomix_js.Prelude.{ℕ, zero, suc, ◌+◌, not, List, [], ◌∷◌, reverse, ◌==◌, if◌then◌else◌, length}
use atomix_js.Prelude.Result.{not_valid_pointer, callee_not_function}
use atomix_js.Prelude.Word.{sub64}
use atomix_js.Value.{JsValue, js_func, has_type}
use atomix_js.Instruction.{Inst}
use atomix_js.Vm.{Ptr, JsFunction}
use atomix_js.Vm.Exec.{
  Exec, pure, raise, ◌>>=◌, ◌>>◌, Host, stack_counter, set_stack_counter, load_slot, push, need,
  deref_function, init_string,
}
use atomix_js.Scope.{scope_declare}
use atomix_js.Execution.Locals.{text_this, take_top}

-- The calls that the machine can make at a given depth.
pub record Calls : Type 0 where
  pub run : Ptr → Exec JsValue
  pub native : ℕ → JsValue → List JsValue → Exec JsValue

-- The arguments, the last one first.
unfoldable pub push_all : List JsValue → Exec (Unit {0})
push_all [] = pure tt
push_all (v ∷ vs) = push v >> push_all vs

-- `this` and the arguments from the stack: the `n` values below the slot `base`, from the top down.
unfoldable pub read_args : ℕ → ℕ → Exec (List JsValue)
read_args zero base = pure []
read_args (suc n) base = do
  v ← load_slot (sub64 base 1)
  vs ← read_args n (sub64 base 1)
  pure (v ∷ vs)

module _ (h : Host) (c : Calls) where
  unfoldable pub call_native : JsFunction → JsValue → List JsValue → Exec JsValue
  call_native f this args =
      if f.native_function == 0
      then raise not_valid_pointer
      else c.native f.native_function this args

  unfoldable pub api_call_function : Ptr → JsValue → List JsValue → Exec JsValue
  api_call_function function this args = do
    f ← deref_function function
    if f.is_native then call_native f this args else do
      push_all (reverse args)
      key ← init_string h text_this
      push this
      scope_declare h f.scope text_this this
      return_value ← c.run function
      n ← stack_counter
      set_stack_counter (sub64 n (length args))
      pure return_value

  -- The two arms of the call, with the callee off the stack.
  unfoldable pub call_function : ℕ → Ptr → JsFunction → Exec JsValue
  call_function operand function f =
      if f.is_native
      then (do
        n ← stack_counter
        this ← load_slot (sub64 n 1)
        args ← read_args operand (sub64 n 1)
        call_native f this args)
      else do
        n ← stack_counter
        this_value ← load_slot (sub64 n 1)
        this_key ← init_string h text_this
        scope_declare h f.scope text_this this_value
        c.run function

  unfoldable pub inst_call : Inst → Exec (Unit {0})
  inst_call inst = do
    need 1
    value ← take_top
    if not (has_type value js_func) then raise callee_not_function else do
      f ← deref_function value.value
      return_value ← call_function inst.operand value.value f
      n ← stack_counter
      set_stack_counter (sub64 n (inst.operand + 1))
      push return_value
