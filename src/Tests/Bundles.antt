-- ===== src/Tests/Bundles.antt =====
-- The search of core/format.c on a bundle of two modules.
use atomix_js.Prelude.{
  ℕ, zero, suc, ◌<◌, ◌≡◌, refl, inl, some, none, List, [], ◌∷◌, arith, get_elem?, if◌then◌else◌,
  ◌==◌,
}
use atomix_js.Vm.{Vm, JsBundle}
use atomix_js.Vm.Exec.{ret}
use atomix_js.Bundle.{bundle_get_module, register_native_module}
use atomix_js.Bundle.Modules.{
  stored, no_more, Contains, bundle_get_module_present, falls_between, registered,
  register_native_module-bundle_get_module,
}
use atomix_js.Tests.Machines.{code, host, two_values}
use atomix_js.Tests.Files.{memory}
use atomix_js.Format.{module_at, not_in_bundle, outside_array, bundle_search}
use atomix_js.Format.Search.{
  IsSorted, bundle_search_present, bundle_search_between, bundle_search_beyond,
}

abbrev two_hashes : List ℕ
two_hashes = 3 ∷ 8 ∷ []

two_hashes-increasing :
    (i j a b : ℕ)
    → i < j
    → get_elem? two_hashes i ≡ some a
    → get_elem? two_hashes j ≡ some b
    → a < b
two_hashes-increasing zero zero a b lt p q = ground arith
two_hashes-increasing zero (suc zero) a b lt p q = ground arith
two_hashes-increasing zero (suc (suc j)) a b lt p q = ground arith
two_hashes-increasing (suc zero) (suc (suc j)) a b lt p q = ground arith
two_hashes-increasing (suc zero) (suc zero) a b lt p q = ground arith
two_hashes-increasing (suc zero) zero a b lt p q = ground arith
two_hashes-increasing (suc (suc i)) j a b lt p q = ground arith

two_hashes-IsSorted : IsSorted two_hashes
two_hashes-IsSorted = record { increasing = two_hashes-increasing; fits = omega arith }

two_hashes-below : (i a : ℕ) → get_elem? two_hashes i ≡ some a → a < 9
two_hashes-below zero a p = ground arith
two_hashes-below (suc zero) a p = ground arith
two_hashes-below (suc (suc i)) a p = ground arith

bundle_search_present_example : bundle_search 9 two_hashes 8 ≡ module_at 1
bundle_search_present_example =
    bundle_search_present two_hashes two_hashes-IsSorted 8 9 1 refl (omega arith)

bundle_search_between_example : bundle_search 9 two_hashes 5 ≡ not_in_bundle
bundle_search_between_example =
    bundle_search_between two_hashes two_hashes-IsSorted 5 9 0 3 8 refl refl (omega arith)
      (omega arith) (omega arith)

bundle_search_beyond_example : bundle_search 9 two_hashes 9 ≡ outside_array
bundle_search_beyond_example =
    bundle_search_beyond two_hashes two_hashes-IsSorted 9 9 (omega arith) (omega arith)
      (inl two_hashes-below)

-- Bundle 40, with its modules at 200 and 201.
abbrev pair : JsBundle
pair = record { entry_point = 3; module_count = 2; modules = 200 }

abbrev bundled : Vm
bundled = record two_values {
  heap = record two_values.heap {
    modules = λ p.
        if p == 200
        then some (record code { hash = 3 })
        else if p == 201
        then some (record code { hash = 8 })
        else none;
    bundles = λ p. if p == 40 then some pair else none;
  };
}

bundled-Contains : Contains host bundled 40 pair two_hashes
bundled-Contains = record {
  address = refl;
  bundle_is = refl;
  counted = refl;
  modules_are = stored refl (stored refl no_more);
  sorted = two_hashes-IsSorted;
}

bundle_get_module_present_example : bundle_get_module host 40 8 bundled ≡ ret 201 bundled
bundle_get_module_present_example =
    bundle_get_module_present host bundled 40 pair two_hashes 8 1 bundled-Contains refl

registered-Contains : Contains host (registered host 5 77 bundled) 40 pair two_hashes
registered-Contains = record {
  address = refl;
  bundle_is = refl;
  counted = refl;
  modules_are = stored refl (stored refl no_more);
  sorted = two_hashes-IsSorted;
}

register_native_module-bundle_get_module_example :
    (register_native_module host 5 77 bundled ≡ ret tt (registered host 5 77 bundled))
    × (bundle_get_module host 40 5 (registered host 5 77 bundled)
        ≡ ret 101 (registered host 5 77 bundled))
register_native_module-bundle_get_module_example =
    register_native_module-bundle_get_module host 5 77 40 bundled memory
      (falls_between 0 3 8 registered-Contains refl refl (omega arith) (omega arith))
