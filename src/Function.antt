-- ===== src/Function.antt =====
-- core/function.c: the two makers of function objects.
pub mod Keeps
use atomix_js.Prelude.{ℕ, true, false, Str, [], ◌∷◌}
use atomix_js.Value.{value_function, value_object}
use atomix_js.Vm.{Ptr, null}
use atomix_js.Vm.Exec.{Exec, pure, crash, ◌>>=◌, ◌>>◌, Host, gc_malloc_unchecked, put_function}
use atomix_js.Scope.{scope_create_scope}
use atomix_js.Object.{
  Caller, object_create_object, object_set_property, object_get_object_prototype,
  object_get_function_prototype,
}

abbrev pub text_constructor : Str
text_constructor = b'c' ∷ b'o' ∷ b'n' ∷ b's' ∷ b't' ∷ b'r' ∷ b'u' ∷ b'c' ∷ b't' ∷ b'o' ∷ b'r' ∷ []

abbrev pub text_prototype : Str
text_prototype = b'p' ∷ b'r' ∷ b'o' ∷ b't' ∷ b'o' ∷ b't' ∷ b'y' ∷ b'p' ∷ b'e' ∷ []

-- The machine that `object_set_property` is given here is NULL: a call through it is a fault.
abbrev no_machine : Caller
no_machine f this args = crash

module _ (h : Host) where
  -- The object behind `F.prototype`, with `constructor` and `prototype` tied together. Each key is
  -- a fresh copy of its literal.
  unfoldable pub tie_prototype : Ptr → Ptr → Exec (Unit {0})
  unfolding object_set_property
  tie_prototype function base = do
    parent ← object_get_object_prototype h
    prototype ← object_create_object h parent
    key ← gc_malloc_unchecked h
    object_set_property h no_machine prototype text_constructor (value_function function)
    key' ← gc_malloc_unchecked h
    object_set_property h no_machine base text_prototype (value_object prototype)

  unfoldable pub function_create_native_function : ℕ → Exec Ptr
  function_create_native_function function_ptr = do
    p ← gc_malloc_unchecked h
    parent ← object_get_object_prototype h
    base ← object_create_object h parent
    put_function p (record {
      base = base;
      native_function = function_ptr;
      scope = null;
      home = null;
      instruction_start = 0;
      instruction_end = 0;
      is_native = true;
    })
    tie_prototype p base
    pure p

  unfoldable pub function_create_function : Ptr → Ptr → ℕ → ℕ → Exec Ptr
  function_create_function parent_scope module_ptr instruction_start instruction_end = do
    p ← gc_malloc_unchecked h
    scope ← scope_create_scope h parent_scope
    parent ← object_get_function_prototype h
    base ← object_create_object h parent
    put_function p (record {
      base = base;
      native_function = 0;
      scope = scope;
      home = module_ptr;
      instruction_start = instruction_start;
      instruction_end = instruction_end;
      is_native = false;
    })
    tie_prototype p base
    pure p
