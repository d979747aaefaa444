-- ===== src/Tests/Scopes.antt =====
-- core/scope.c on a chain of two scopes.

use atomix_js.Prelude.{◌≡◌, refl, true, none, some, [], ◌∷◌, arith, ◌==◌, if◌then◌else◌, str_eq}
use atomix_js.Value.{value_int}
use atomix_js.Dict.{find_entry, key_is, bucket, dict_create_dict, hash_string, dict_get}
use atomix_js.Vm.{Vm, Scope}
use atomix_js.Vm.Exec.{ret}
use atomix_js.Scope.{scope_declare, scope_get, scope_contains}
use atomix_js.Scope.Chain.{
  IsChain, last, link, resolve, declared, scope_get_lem, scope_contains_lem,
  scope_declare-scope_get,
}
use atomix_js.Tests.Dictionaries.{two_keys, two_keys-IsDict}
use atomix_js.Tests.Machines.{host, two_values}

-- An empty scope at 2, in one at 1 that has the names "a" and "c".
abbrev outer : Scope
outer = record { parent = 0; symbols = two_keys }

abbrev inner : Scope
inner = record { parent = 1; symbols = dict_create_dict 4 }

abbrev nested : Vm
nested = record two_values {
  heap = record two_values.heap {
    scopes = λ p. if p == 1 then some outer else if p == 2 then some inner else none;
  };
}

nested-IsChain : IsChain nested.heap 2 (inner ∷ outer ∷ [])
nested-IsChain = link refl (omega arith) (last refl refl)

scope_get_lem_example :
    scope_get 2 2 (97 ∷ []) nested ≡ ret (resolve (inner ∷ outer ∷ []) (97 ∷ [])) nested
scope_get_lem_example =
    scope_get_lem 2 2 (inner ∷ outer ∷ []) (97 ∷ []) nested nested-IsChain (omega arith)

scope_contains_lem_example :
    scope_contains 2 2 (97 ∷ []) true nested ≡ ret (declared (inner ∷ outer ∷ []) (97 ∷ [])) nested
scope_contains_lem_example =
    scope_contains_lem 2 2 (inner ∷ outer ∷ []) (97 ∷ []) nested nested-IsChain (omega arith)

resolved : resolve (inner ∷ outer ∷ []) (97 ∷ []) ≡ value_int 1
unfolding resolve dict_get dict_create_dict hash_string bucket find_entry key_is str_eq
resolved = refl

scope_declare-scope_get_example :
    (vm' : Vm) × (scope_declare host 1 (98 ∷ []) (value_int 6) nested ≡ ret tt vm')
    × (scope_get 1 1 (98 ∷ []) vm' ≡ ret (value_int 6) vm')
scope_declare-scope_get_example =
    scope_declare-scope_get host (98 ∷ []) (value_int 6) 0 1 outer nested refl two_keys-IsDict
      (omega arith)
