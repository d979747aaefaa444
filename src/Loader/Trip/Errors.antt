-- ===== src/Loader/Trip/Errors.antt =====
-- Files that the loader refuses, and the strings of those that it takes.
use atomix_js.Prelude.{
  ℕ, ◌+◌, ◌*◌, ◌%◌, ◌≡◌, ◌≢◌, ◌<◌, refl, Bool, false, true, some, List, ◌∷◌, arith, Str, get_elem?,
  ◌==◌, if◌then◌else◌,
}
use atomix_js.Prelude.Result.{ok, invalid_magic, invalid_version}
use atomix_js.Format.{string_table_load_str}
use atomix_js.Vm.{Vm, Ptr}
use atomix_js.Vm.Exec.{Host, panicked}
use atomix_js.Vm.Succeeds.{Succeeds, Succeeds-mono, Allocates}
use atomix_js.Loader.Bytes.{Buffer}
use atomix_js.Loader.Strings.{load_string_table}
use atomix_js.Loader.Files.{
  module_magic3, module_version, bundle_magic3, bundle_version, module_load_from_buffer_offset,
  module_load_from_buffer, bundle_load_from_buffer, unknown_load_from_buffer,
}
use atomix_js.Loader.Write.{write_stable, stable_length}
use atomix_js.Loader.Trip.Header.{is_magic, has_magic_lem, check_header_magic, check_header_version}
use atomix_js.Loader.Trip.Holds.{Holds, byte_bound}
use atomix_js.Loader.Trip.Strings.{load_string_table_lem}
use atomix_js.Loader.Trip.Table.{HasNoNul, string_table_load_str-table_of}

other_is : (n m : ℕ) → n ≢ m → (n == m) ≡ false
other_is n m other = ground arith

module _ (h : Host) (buff : Buffer) (module_ptr bundle : Ptr) (vm : Vm) where
  -- A file that begins with the magic bytes of neither format is refused for them.
  pub unknown_load_from_buffer_magic :
      (a b c d : ℕ) (rest : Buffer)
      → Holds buff 0 (a ∷ b ∷ c ∷ d ∷ rest)
      → is_magic module_magic3 a b c d ≡ false
      → is_magic bundle_magic3 a b c d ≡ false
      → unknown_load_from_buffer h buff module_ptr bundle vm ≡ panicked invalid_magic
  unfolding unknown_load_from_buffer bundle_load_from_buffer
  unknown_load_from_buffer_magic a b c d rest held no_module no_bundle =
      rw
        (
          has_magic_lem h buff 0 a b c d rest module_magic3 held,
          no_module,
          check_header_magic h buff 0 a b c d rest bundle_magic3 bundle_version vm held no_bundle,
        )
        refl

  -- A module or a bundle of another version is refused for it.
  pub unknown_load_from_buffer_version :
      (is_bundle : Bool) (v v' : ℕ) (rest : Buffer)
      → Holds buff 0
          (46 ∷ 65 ∷ 120 ∷ (if is_bundle then bundle_magic3 else module_magic3) ∷ v ∷ v' ∷ rest)
      → v % 256 + 256 * (v' % 256) ≢ (if is_bundle then bundle_version else module_version)
      → unknown_load_from_buffer h buff module_ptr bundle vm ≡ panicked invalid_version
  unfolding unknown_load_from_buffer bundle_load_from_buffer module_load_from_buffer
      module_load_from_buffer_offset
  unknown_load_from_buffer_version true v v' rest held other =
      rw
        (
          has_magic_lem h buff 0 46 65 120 66 (v ∷ v' ∷ rest) module_magic3 held,
          check_header_version h buff 0 46 65 120 66 v v' rest bundle_magic3 bundle_version vm held
              refl,
          other_is (v % 256 + 256 * (v' % 256)) bundle_version other,
        )
        refl
  unknown_load_from_buffer_version false v v' rest held other =
      rw
        (
          has_magic_lem h buff 0 46 65 120 77 (v ∷ v' ∷ rest) module_magic3 held,
          check_header_version h buff 0 46 65 120 77 v v' rest module_magic3 module_version vm held
              refl,
          other_is (v % 256 + 256 * (v' % 256)) module_version other,
        )
        refl

module _ (h : Host) (memory : Allocates h) (buff : Buffer) where
  -- A string table that atomixc writes and the loader reads gives back each of its strings that
  -- holds no NUL, where the length of the table fits 32 bits and the collector has memory left.
  pub load_string_table-load_str :
      (ss : List Str) (start i : ℕ) (s : Str) (vm : Vm)
      → stable_length ss < byte_bound 4
      → get_elem? ss i ≡ some s
      → HasNoNul s
      → Holds buff start (write_stable ss)
      → Succeeds
          (λ table w. string_table_load_str table i ≡ ok s)
          (load_string_table h buff start vm)
  load_string_table-load_str ss start i s vm small is clean held =
      Succeeds-mono (load_string_table_lem h memory buff ss start small held vm)
        λ table w e. rw e (string_table_load_str-table_of i ss s is small clean)
