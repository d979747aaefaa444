-- ===== src/Core/Inherit.antt =====
-- `Object.setPrototypeOf` and `Array.isArray` on the prototypes that they leave and read.
use atomix_js.Prelude.{ℕ, ◌<◌, ◌≡◌, refl, false, ==_refl, some, List, ◌∷◌, Str, length, arith}
use atomix_js.Value.{JsValue, has_type, value_object, value_undefined}
use atomix_js.Vm.{Vm, Ptr, JsObject, update}
use atomix_js.Vm.Exec.{ret, deref_object, put_object}
use atomix_js.Object.{Caller, object_get_property}
use atomix_js.Object.Prototypes.{
  is_top, IsLineage, child, Plain, inherited, object_get_property_lem,
}
use atomix_js.Core.Objects.{set_prototype_of, base_object}

-- The machine after `target->prototype = prototype`.
abbrev pub with_prototype : Ptr → JsObject → Ptr → Vm → Vm
with_prototype p o prototype vm = record vm {
  heap = record vm.heap {
    objects = update vm.heap.objects p (some (record o { prototype = prototype }));
  };
}

-- `setPrototypeOf` on two objects writes the prototype of the first and changes nothing else, and a
-- look-up from the first then returns its own property or what is found from the second, with at
-- least as much fuel as there are objects, where the prototypes from the second object on end, what is
-- found there is no accessor, and the second is neither NULL nor the first.
pub set_prototype_of-object_get_property :
    (call : Caller) (fuel : ℕ) (p q : Ptr) (o : JsObject) (os : List JsObject) (key : Str)
    (this : JsValue) (args : List JsValue) (vm : Vm)
    → vm.heap.objects p ≡ some o
    → is_top p (record o { prototype = q }) ≡ false
    → IsLineage (with_prototype p o q vm).heap q os
    → length os < fuel
    → Plain (record o { prototype = q } ∷ os) key
    → (set_prototype_of this (value_object p ∷ value_object q ∷ args) vm
        ≡ ret value_undefined (with_prototype p o q vm))
      × (object_get_property call fuel p key (with_prototype p o q vm)
          ≡ ret (inherited (record o { prototype = q } ∷ os) key) (with_prototype p o q vm))
unfolding set_prototype_of base_object deref_object put_object has_type
set_prototype_of-object_get_property call fuel p q o os key this args vm is below lineage enough
      plain =
    (
      rw is refl,
      object_get_property_lem call key fuel p (record o { prototype = q } ∷ os)
          (with_prototype p o q vm) (child (rw (==_refl p) refl) below lineage) (omega arith) plain,
    )
