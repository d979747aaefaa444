-- ===== src/Dict.antt =====
-- core/dict.c and core/dict.impl.h: the hash table of strings and symbols to values. A dictionary
-- owns its chains and shares none of their nodes, so a chain is the list of its nodes, first node
-- first, and the address of a node is its position. The value that `dict_get` points to is written
-- by `write_entry` and `write_symbol`.
pub mod Delete
pub mod Lookup
pub mod Remove
pub mod Update
use atomix_js.Prelude.{
  ℕ, zero, suc, ◌+◌, ◌-◌, ◌*◌, ◌%◌, Bool, true, false, Option, none, some, List, [], ◌∷◌, Str,
  str_eq, ltb, ◌==◌, if◌then◌else◌, get_elem?, set, replicate,
}
use atomix_js.Prelude.Word.{u32_mod}
use atomix_js.Prelude.Result.{Result, ok, panic, fault, could_not_allocate}
use atomix_js.Value.{JsValue}

-- `key = none` is a NULL key: the node of a symbol. `symbol = 0` is a NULL symbol.
pub record JsProperty : Type 0 where
  pub key : Option Str
  pub symbol : ℕ
  pub value : JsValue

abbrev pub Chain : Type 0
Chain = List JsProperty

pub record JsDict : Type 0 where
  pub buckets : List Chain
  pub bucket_count : ℕ

abbrev hash_seed : ℕ
hash_seed = 5381

-- A `char` is signed: a byte from 128 on counts as its value less 256.
abbrev char_value : ℕ → ℕ
char_value c = if ltb c 128 then c else u32_mod - 256 + c

hash_loop : ℕ → Str → ℕ
hash_loop hash [] = hash
hash_loop hash (c ∷ str) = hash_loop ((hash * 32 + hash + char_value c) % u32_mod) str

unfoldable pub hash_string : Str → ℕ → ℕ
unfolding hash_loop
hash_string str bucket_count = hash_loop hash_seed str % bucket_count

unfoldable pub dict_create_dict : ℕ → JsDict
dict_create_dict n = record { buckets = replicate n []; bucket_count = n }

abbrev pub chain_or_empty : Option Chain → Chain
chain_or_empty none = []
chain_or_empty (some c) = c

-- `dict->buckets[index]`
unfoldable pub bucket : JsDict → ℕ → Chain
bucket d i = chain_or_empty (get_elem? d.buckets i)

unfoldable pub set_bucket : JsDict → ℕ → Chain → JsDict
set_bucket d i c = record d { buckets = set d.buckets i c }

-- The test of the loops: a node with a NULL key is passed over.
unfoldable pub key_is : Option Str → Str → Bool
key_is none key = false
key_is (some k) key = str_eq key k

unfoldable pub find_entry : Chain → Str → Option JsValue
unfolding key_is
find_entry [] key = none
find_entry (e ∷ c) key = if key_is e.key key then some e.value else find_entry c key

unfoldable pub write_entry : Chain → Str → JsValue → Chain
unfolding key_is
write_entry [] key v = []
write_entry (e ∷ c) key v =
    if key_is e.key key then record e { value = v } ∷ c else e ∷ write_entry c key v

unfoldable pub has_entry : Chain → Str → Bool
unfolding key_is
has_entry [] key = false
has_entry (e ∷ c) key = if key_is e.key key then true else has_entry c key

unfoldable pub find_symbol : Chain → ℕ → Option JsValue
find_symbol [] s = none
find_symbol (e ∷ c) s = if e.symbol == s then some e.value else find_symbol c s

unfoldable pub write_symbol : Chain → ℕ → JsValue → Chain
write_symbol [] s v = []
write_symbol (e ∷ c) s v =
    if e.symbol == s then record e { value = v } ∷ c else e ∷ write_symbol c s v

unfoldable pub has_symbol : Chain → ℕ → Bool
has_symbol [] s = false
has_symbol (e ∷ c) s = if e.symbol == s then true else has_symbol c s

unfoldable pub dict_update : JsDict → Str → JsValue → Bool × JsDict
unfolding hash_string bucket set_bucket has_entry write_entry
dict_update d key v =
    let index = hash_string key d.bucket_count in
    (has_entry (bucket d index) key, set_bucket d index (write_entry (bucket d index) key v))

unfoldable pub dict_update_with_symbol : JsDict → ℕ → JsValue → Bool × JsDict
unfolding bucket set_bucket has_symbol write_symbol
dict_update_with_symbol d s v =
    (has_symbol (bucket d 0) s, set_bucket d 0 (write_symbol (bucket d 0) s v))

unfoldable pub dict_get : JsDict → Str → Option JsValue
unfolding hash_string bucket find_entry
dict_get d key = find_entry (bucket d (hash_string key d.bucket_count)) key

unfoldable pub dict_get_by_symbol : JsDict → ℕ → Option JsValue
unfolding bucket find_symbol
dict_get_by_symbol d s = find_symbol (bucket d 0) s

-- `new_entry` is what GC_malloc returns, 0 for NULL. The collector zeroes the node.
unfoldable pub dict_add : ℕ → JsDict → Str → JsValue → Result JsDict
unfolding hash_string bucket set_bucket
dict_add new_entry d key v =
    let index = hash_string key d.bucket_count in
    if new_entry == 0
    then panic could_not_allocate
    else ok (set_bucket d index (record { key = some key; symbol = 0; value = v } ∷ bucket d index))

unfoldable pub dict_add_with_symbol : ℕ → JsDict → ℕ → JsValue → Result JsDict
unfolding bucket set_bucket
dict_add_with_symbol new_entry d s v =
    if new_entry == 0
    then panic could_not_allocate
    else ok (set_bucket d 0 (record { key = none; symbol = s; value = v } ∷ bucket d 0))
