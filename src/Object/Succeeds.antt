-- ===== src/Object/Succeeds.antt =====
-- Where the collector has memory left, objects and scopes are created.
use atomix_js.Prelude.{ℕ, ◌≡◌, refl, some, Bool-cases, inl, inr, ◌==◌, ==_refl}
use atomix_js.Dict.{JsDict}
use atomix_js.Vm.{Vm, Ptr, JsObject, null}
use atomix_js.Vm.Exec.{Host, pure, ◌>>=◌, put_object, deref_object, put_scope}
use atomix_js.Vm.Succeeds.{
  Succeeds, succeeds, Succeeds-bind, Allocates, gc_malloc_checked-Succeeds,
  gc_malloc_unchecked-Succeeds,
}
use atomix_js.Scope.{new_dict, scope_create_scope}
use atomix_js.Object.{object_create_object, object_get_object_prototype}

-- An object stands at `p`.
abbrev pub HasObject : Ptr → Vm → Type 0
HasObject p vm = (o : JsObject) × (vm.heap.objects p ≡ some o)

module _ (h : Host) (memory : Allocates h) where
  new_dict-Succeeds : (n : ℕ) (vm : Vm) → Succeeds (λ d w. Unit) (new_dict h n vm)
  unfolding new_dict
  new_dict-Succeeds n vm =
      Succeeds-bind (gc_malloc_checked-Succeeds h memory vm)
        λ p w u. Succeeds-bind (gc_malloc_unchecked-Succeeds h memory w) λ q w1 u1. succeeds tt

  pub scope_create_scope-Succeeds :
      (parent : Ptr) (vm : Vm) → Succeeds (λ p w. Unit) (scope_create_scope h parent vm)
  unfolding scope_create_scope put_scope
  scope_create_scope-Succeeds parent vm =
      Succeeds-bind (gc_malloc_unchecked-Succeeds h memory vm)
        λ p w u. Succeeds-bind (new_dict-Succeeds _ w) λ d w1 u1. succeeds tt

  stored :
      (prototype p : Ptr) (d : JsDict) (vm : Vm)
      → Succeeds HasObject
          ((put_object p (record { prototype = prototype; properties = d }) >>= λ u. pure p) vm)
  unfolding put_object
  stored prototype p d vm =
      succeeds (record { prototype = prototype; properties = d }, rw (==_refl p) refl)

  pub object_create_object-Succeeds :
      (prototype : Ptr) (vm : Vm) → Succeeds HasObject (object_create_object h prototype vm)
  unfolding object_create_object put_object
  object_create_object-Succeeds prototype vm =
      Succeeds-bind (gc_malloc_unchecked-Succeeds h memory vm)
        λ p w u. Succeeds-bind (new_dict-Succeeds _ w) λ d w1 u1. stored prototype p d w1

  pub object_get_object_prototype-Succeeds :
      (vm : Vm) → Succeeds (λ p w. Unit) (object_get_object_prototype h vm)
  unfolding object_get_object_prototype deref_object put_object
  object_get_object_prototype-Succeeds vm =
      elim (Bool-cases (vm.globals.object_prototype == null)) [
        | inl y ↦
            rw y
              (Succeeds-bind (object_create_object-Succeeds null vm) λ p w o. rw o.1 (succeeds tt))
        | inr n ↦ rw n (succeeds tt)
      ]
