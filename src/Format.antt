-- ===== src/Format.antt =====
-- core/format.c and core/format.impl.h: the string table of a module and the look-up of a module in
-- a bundle.
pub mod Element
pub mod Search
use atomix_js.Prelude.{
  ℕ, zero, suc, ◌+◌, ◌-◌, ◌*◌, ◌/◌, ◌%◌, Bool, true, false, Option, none, some, List, [], ◌∷◌, Str,
  ltb, leb, ◌==◌, if◌then◌else◌, length, get_elem?, take, drop,
}
use atomix_js.Prelude.Result.{
  Result, ok, panic, fault, ◌>>=◌, string_index_out_of_bounds, module_not_found,
}
use atomix_js.Prelude.Word.{u32_mod, u64_mod}

-- `offsets` has the entries that the loader copied, `strings` the bytes behind them.
pub record StringTable : Type 0 where
  pub length : ℕ
  pub count : ℕ
  pub offsets : List ℕ
  pub strings : List ℕ

-- A read of an array that the model bounds.
unfoldable pub element {ℓ} : {A : Type ℓ} → List A → ℕ → Result A
element xs i = elim (get_elem? xs i) [ none ↦ fault | some x ↦ ok x ]

-- `memcpy` of `n` bytes from `offset` on.
unfoldable pub bytes_at : List ℕ → ℕ → ℕ → Result (List ℕ)
bytes_at bytes offset n =
    if leb (offset + n) (length bytes) then ok (take n (drop offset bytes)) else fault

-- The text of a `char*`: the bytes in front of the first NUL.
unfoldable pub c_string : List ℕ → Str
c_string [] = []
c_string (c ∷ bytes) = let rest = c_string bytes in if c == 0 then [] else c ∷ rest

-- The length of a string, in the arithmetic of `size_t`, cut to 32 bits.
unfoldable pub string_length : StringTable → ℕ → ℕ → Result ℕ
unfolding element
string_length table idx offset =
    if idx == table.count - 1
    then ok ((table.length + u64_mod - (offset + 8 + table.count * 4)) % u64_mod % u32_mod)
    else do
      next ← element table.offsets (idx + 1)
      ok ((next % u32_mod + u32_mod - offset % u32_mod) % u32_mod)

unfoldable pub string_table_load_str : StringTable → ℕ → Result Str
unfolding element string_length bytes_at c_string
string_table_load_str table idx =
    if leb table.count idx then panic string_index_out_of_bounds else do
      offset ← element table.offsets idx
      length ← string_length table idx offset
      bytes ← bytes_at table.strings offset length
      ok (c_string bytes)

-- The search reads the hashes of the modules of a bundle, in the order of the file. A module is
-- returned as its index. `low`, `high` and `mid` are `uint16_t`; `mid + 1` and `mid - 1` wrap. The
-- loop may run for ever, so it takes fuel.
pub data Found : Type 0 where
  module_at : ℕ → Found
  not_in_bundle : Found
  outside_array : Found
  out_of_fuel : Found

unfoldable pub middle : ℕ → ℕ → ℕ
middle low high = low + (high - low) / 2

abbrev pub u16_mod : ℕ
u16_mod = 0x1_0000

unfoldable pub search_loop : ℕ → List ℕ → ℕ → ℕ → ℕ → Found
search_loop zero hashes hash low high = out_of_fuel
search_loop (suc fuel) hashes hash low high =
    let mid = middle low high in
    let right = search_loop fuel hashes hash ((mid + 1) % u16_mod) high in
    let left = search_loop fuel hashes hash low ((mid + u16_mod - 1) % u16_mod) in
    if leb low high
    then elim (get_elem? hashes mid) [
      | none ↦ outside_array
      | some h ↦ if h == hash then module_at mid else if ltb h hash then right else left
    ]
    else not_in_bundle

unfoldable pub bundle_search : ℕ → List ℕ → ℕ → Found
unfolding search_loop middle
bundle_search fuel hashes hash = search_loop fuel hashes hash 0 (length hashes % u16_mod)
