-- ===== src/Object/Prototypes.antt =====
-- core/object.c: what a look-up finds along the prototypes.
use atomix_js.Prelude.{
  ℕ, zero, suc, ◌≤◌, ◌≡◌, refl, ◌∙◌, Bool, true, false, ◌||◌, ◌==◌, Option, none, some, List, [],
  ◌∷◌, Str, length, arith,
}
use atomix_js.Value.{JsValue, js_gs_box, has_type, value_undefined}
use atomix_js.Dict.{dict_get}
use atomix_js.Vm.{Vm, Ptr, null, Heap, JsObject}
use atomix_js.Vm.Exec.{Exec, ret, deref_object}
use atomix_js.Object.{Caller, read_property, get_found, up_prototype, object_get_property}

-- The walk goes no further than this object.
abbrev pub is_top : Ptr → JsObject → Bool
is_top p o = o.prototype == null || o.prototype == p

-- From `p` the prototypes lead through these objects.
pub data IsLineage (h : Heap) : Ptr → List JsObject → Type 0 where
  top : {p : Ptr} {o : JsObject} → h.objects p ≡ some o → is_top p o ≡ true → IsLineage h p (o ∷ [])
  child :
      {p : Ptr} {o : JsObject} {os : List JsObject}
      → h.objects p ≡ some o
      → is_top p o ≡ false
      → IsLineage h o.prototype os
      → IsLineage h p (o ∷ os)

unfoldable pub first_of : Option JsValue → JsValue → JsValue
first_of (some v) rest = v
first_of none rest = rest

-- The property of the first object that has it.
unfoldable pub inherited : List JsObject → Str → JsValue
inherited [] key = value_undefined
inherited (o ∷ os) key = first_of (dict_get o.properties key) (inherited os key)

get_found_lem :
    (call : Caller) (p : Ptr) (r : Option JsValue) (up : Exec JsValue) (rest : JsValue) (vm : Vm)
    → up vm ≡ ret rest vm
    → has_type (first_of r rest) js_gs_box ≡ false
    → get_found call p r up vm ≡ ret (first_of r rest) vm
unfolding get_found read_property first_of
get_found_lem call p none up rest vm above plain = above
get_found_lem call p (some v) up rest vm above plain = rw plain refl

up_prototype_top :
    (p : Ptr) (o : JsObject) (up : Exec JsValue) (vm : Vm)
    → is_top p o ≡ true
    → up_prototype p o up vm ≡ ret value_undefined vm
unfolding up_prototype
up_prototype_top p o up vm t = rw t refl

up_prototype_child :
    (p : Ptr) (o : JsObject) (up : Exec JsValue) (vm : Vm)
    → is_top p o ≡ false
    → up_prototype p o up vm ≡ up vm
unfolding up_prototype
up_prototype_child p o up vm t = rw t refl

-- What a look-up finds from the object, or from one behind it, is no accessor.
unfoldable pub Plain : List JsObject → Str → Type 0
Plain [] key = Unit
Plain (o ∷ os) key =
    (has_type (first_of (dict_get o.properties key) (inherited os key)) js_gs_box ≡ false)
    × Plain os key

module _ (call : Caller) (key : Str) where
  -- Where the prototypes end, with at least as much fuel as there are objects, a look-up returns the
  -- property of the first object on the way that has it, or `undefined`, and changes nothing, if what
  -- is found from no object on the way is an accessor.
  pub object_get_property_lem :
      (fuel : ℕ) (p : Ptr) (os : List JsObject) (vm : Vm)
      → IsLineage vm.heap p os
      → length os ≤ fuel
      → Plain os key
      → object_get_property call fuel p key vm ≡ ret (inherited os key) vm
  unfolding object_get_property deref_object inherited Plain
  object_get_property_lem zero p [] vm lineage enough plain = elim lineage [ ]
  object_get_property_lem (suc fuel) p [] vm lineage enough plain = elim lineage [ ]
  object_get_property_lem zero p (o ∷ os) vm lineage enough plain = absurd (omega arith)
  object_get_property_lem (suc fuel) p (o ∷ []) vm (top is t) enough plain = rw is (
      get_found_lem call p (dict_get o.properties key) _ value_undefined vm
        (up_prototype_top p o _ vm t) plain.0)
  object_get_property_lem (suc fuel) p (o ∷ os) vm (child is t lineage) enough plain = rw is (
      get_found_lem call p (dict_get o.properties key) _ (inherited os key) vm
        (up_prototype_child p o _ vm t
          ∙ object_get_property_lem fuel o.prototype os vm lineage (omega arith) plain.1)
        plain.0)
