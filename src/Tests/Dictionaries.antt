-- ===== src/Tests/Dictionaries.antt =====
-- core/dict.c on a concrete dictionary.
use mathlib.Core.Logic.{◌≢◌}
use atomix_js.Prelude.{
  ℕ, zero, suc, ◌≡◌, refl, inl, inr, true, false, none, some, [], ◌∷◌, Str, arith, is_some, str_eq,
}
use atomix_js.Prelude.Result.{ok, fault}
use atomix_js.Value.{value_int}
use atomix_js.Dict.{
  JsDict, find_entry, key_is, bucket, hash_string, dict_get, dict_add, dict_add_with_symbol,
  dict_update,
}
use atomix_js.Dict.Delete.{unlink_at, find_position, dict_delete, delete_first}
use atomix_js.Dict.Lookup.{IsDict, IsTagged, SameSymbols}
use atomix_js.Dict.Update.{
  Puts, PutsSymbol, dict_add_lem, dict_update_present, dict_add_with_symbol_lem,
}
use atomix_js.Dict.Remove.{deleted, fits_key, key_chain, dict_delete_lem, dict_delete_keeps}

-- Two buckets, the second one empty: nodes with the keys "a" and "c", which have the same hash, and
-- one with the symbol 9.
abbrev pub two_keys : JsDict
two_keys = record {
  buckets =
      (record { key = some (97 ∷ []); symbol = 0; value = value_int 1 }
        ∷ record { key = some (99 ∷ []); symbol = 0; value = value_int 2 }
        ∷ record { key = none; symbol = 9; value = value_int 3 }
        ∷ [])
      ∷ []
      ∷ [];
  bucket_count = 2;
}

pub two_keys-IsDict : IsDict two_keys
two_keys-IsDict = record { sized = refl; nonempty = omega arith; tagged = chain-IsTagged }
  where
    chain-IsTagged : (i : ℕ) → IsTagged (bucket two_keys i)
    chain-IsTagged zero = unfold bucket in (inr refl, (inr refl, (inl refl, tt)))
    chain-IsTagged (suc zero) = unfold bucket in tt
    chain-IsTagged (suc (suc i)) = unfold bucket in tt

has_c : dict_get two_keys (99 ∷ []) ≢ none
unfolding dict_get find_entry bucket hash_string key_is str_eq
has_c = λ e. ground (arith, e)

not_second : find_position (fits_key (97 ∷ [])) (key_chain two_keys (97 ∷ [])) ≢ some 1
unfolding find_position bucket hash_string key_is str_eq
not_second = λ e. ground (arith, e)

dict_add_lem_example :
    (d' : JsDict) × (dict_add 5 two_keys (98 ∷ []) (value_int 4) ≡ ok d')
    × Puts two_keys (98 ∷ []) (value_int 4) d'
dict_add_lem_example = dict_add_lem two_keys two_keys-IsDict (98 ∷ []) (value_int 4) 5 (omega arith)

dict_update_present_example :
    ((dict_update two_keys (99 ∷ []) (value_int 4)).0 ≡ true)
    × Puts two_keys (99 ∷ []) (value_int 4) (dict_update two_keys (99 ∷ []) (value_int 4)).1
dict_update_present_example =
    dict_update_present two_keys two_keys-IsDict (99 ∷ []) (value_int 4) has_c

dict_add_with_symbol_lem_example :
    (d' : JsDict) × (dict_add_with_symbol 5 two_keys 8 (value_int 4) ≡ ok d')
    × PutsSymbol two_keys 8 (value_int 4) d'
dict_add_with_symbol_lem_example =
    dict_add_with_symbol_lem two_keys two_keys-IsDict 8 (value_int 4) 5 (omega arith)

-- The deletion of "c", the second node of its chain, is undefined behaviour.
dict_delete_lem_example :
    dict_delete two_keys (99 ∷ [])
    ≡ deleted two_keys (99 ∷ []) (find_position (fits_key (99 ∷ [])) (key_chain two_keys (99 ∷ [])))
dict_delete_lem_example = dict_delete_lem two_keys (99 ∷ [])

second_deleted : dict_delete two_keys (99 ∷ []) ≡ fault
unfolding dict_delete delete_first find_position bucket hash_string key_is str_eq unlink_at
second_deleted = refl

dict_delete_keeps_example :
    (d' : JsDict) × (dict_delete two_keys (97 ∷ [])
      ≡ ok (is_some (dict_get two_keys (97 ∷ [])), d'))
    × ((j : Str) → str_eq j (97 ∷ []) ≡ false → dict_get d' j ≡ dict_get two_keys j)
    × SameSymbols two_keys d'
    × IsDict d'
dict_delete_keeps_example = dict_delete_keeps two_keys (97 ∷ []) two_keys-IsDict not_second
