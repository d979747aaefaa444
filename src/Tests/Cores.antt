-- ===== src/Tests/Cores.antt =====
-- modules/core/core.c and core/object.c on concrete machines.
use atomix_js.Prelude.{◌≡◌, refl, some, none, [], ◌∷◌, Str, arith, ◌==◌, if◌then◌else◌}
use atomix_js.Value.{has_type, value_object, value_undefined}
use atomix_js.Dict.{dict_create_dict, dict_get}
use atomix_js.Vm.{Vm, Ptr, JsObject}
use atomix_js.Vm.Exec.{ret, pure}
use atomix_js.Object.{Caller, object_get_property}
use atomix_js.Object.Prototypes.{Plain, child, first_of, inherited, object_get_property_lem, top}
use atomix_js.Core.Inherit.{set_prototype_of-object_get_property, with_prototype}
use atomix_js.Core.Objects.{set_prototype_of}
use atomix_js.Tests.Machines.{two_values}

-- Objects without properties; the prototype of 12 is 11, which has none.
abbrev empty : Ptr → JsObject
empty prototype = record { prototype = prototype; properties = dict_create_dict 1 }

abbrev two_objects : Vm
two_objects = record two_values {
  heap = record two_values.heap {
    objects = λ p.
        if p == 11
        then some (empty 0)
        else if p == 12
        then some (empty 11)
        else if p == 13
        then some (empty 0)
        else none;
  };
}

abbrev key : Str
key = b'k' ∷ []

abbrev no_call : Caller
no_call f this args = pure value_undefined

object_get_property_lem_example :
    object_get_property no_call 2 12 key two_objects
    ≡ ret (inherited (empty 11 ∷ empty 0 ∷ []) key) two_objects
unfolding Plain first_of inherited dict_get dict_create_dict has_type
object_get_property_lem_example =
    object_get_property_lem no_call key 2 12 (empty 11 ∷ empty 0 ∷ []) two_objects
      (child refl refl (top refl refl)) (omega arith) (refl, (refl, tt))

set_prototype_of-object_get_property_example :
    (set_prototype_of value_undefined (value_object 13 ∷ value_object 11 ∷ []) two_objects
      ≡ ret value_undefined (with_prototype 13 (empty 0) 11 two_objects))
    × (object_get_property no_call 2 13 key (with_prototype 13 (empty 0) 11 two_objects)
        ≡ ret
            (inherited (empty 11 ∷ empty 0 ∷ []) key)
            (with_prototype 13 (empty 0) 11 two_objects))
unfolding Plain first_of inherited dict_get dict_create_dict has_type
set_prototype_of-object_get_property_example =
    set_prototype_of-object_get_property no_call 2 13 11 (empty 0) (empty 0 ∷ []) key
      value_undefined [] two_objects refl refl (top refl refl) (omega arith) (refl, (refl, tt))
