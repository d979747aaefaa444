-- ===== src/Dict/Update.antt =====
-- core/dict.c: what each update does to every look-up.
use atomix_js.Prelude.{
  ℕ, ◌<◌, ◌≡◌, ◌≢◌, refl, ◌∙◌, inl, inr, none, some, ◌∷◌, Str, str_eq, str_eq_sound, ◌==◌, ==_iff,
  if◌then◌else◌, arith, false, true, replicate, [], get_elem?, set, List, length-replicate,
  Option-cases, zero, suc,
}
use atomix_js.Prelude.Result.{ok}
use atomix_js.Value.{JsValue}
use atomix_js.Dict.{
  Chain, chain_or_empty, JsDict, hash_string, bucket, set_bucket, key_is, find_entry, write_entry,
  has_entry, find_symbol, write_symbol, has_symbol, dict_create_dict, dict_update,
  dict_update_with_symbol, dict_get, dict_get_by_symbol, dict_add, dict_add_with_symbol,
}
use atomix_js.Dict.Lookup.{
  IsDict, IsTagged, SameKeys, SameSymbols, hash_string-lt, IsDict-set_bucket,
  find_entry-write_entry, find_symbol-write_entry, IsTagged-write_entry, IsTagged-write_symbol,
  find_symbol-write_symbol, find_entry-write_symbol, has_entry-is_some, has_symbol-is_some,
  dict_get-set_bucket, dict_get-set_bucket_at, by_symbol-set_bucket,
}

-- After the operation that gives `d'` the key `k` has the value `v`, and no other answer changed.
pub record Puts (d : JsDict) (k : Str) (v : JsValue) (d' : JsDict) : Type 0 where
  pub keys : (j : Str) → dict_get d' j ≡ (if str_eq j k then some v else dict_get d j)
  pub symbols : SameSymbols d d'
  pub valid : IsDict d'

pub record PutsSymbol (d : JsDict) (r : ℕ) (v : JsValue) (d' : JsDict) : Type 0 where
  pub keys : SameKeys d d'
  pub symbols :
      (s : ℕ)
      → s ≢ 0
      → dict_get_by_symbol d' s ≡ (if s == r then some v else dict_get_by_symbol d s)
  pub valid : IsDict d'

write_entry-absent :
    (c : Chain) (k : Str) (v : JsValue) → has_entry c k ≡ false → write_entry c k v ≡ c
unfolding write_entry has_entry
write_entry-absent [] k v h = refl
write_entry-absent (e ∷ c) k v h = ground (arith, write_entry-absent c k v)

write_symbol-absent :
    (c : Chain) (s : ℕ) (v : JsValue) → has_symbol c s ≡ false → write_symbol c s v ≡ c
unfolding write_symbol has_symbol
write_symbol-absent [] s v h = refl
write_symbol-absent (e ∷ c) s v h = ground (arith, write_symbol-absent c s v)

set-get_elem? : (b : List Chain) (i : ℕ) → set b i (chain_or_empty (get_elem? b i)) ≡ b
set-get_elem? [] i = refl
set-get_elem? (c ∷ b) zero = refl
set-get_elem? (c ∷ b) (suc i) = rw (set-get_elem? b i)

set_bucket-bucket : (d : JsDict) (i : ℕ) → set_bucket d i (bucket d i) ≡ d
unfolding set_bucket bucket
set_bucket-bucket d i =
    λ k. record { buckets = set-get_elem? d.buckets i k; bucket_count = d.bucket_count }

chain_or_empty-replicate : (n i : ℕ) → chain_or_empty (get_elem? (replicate n []) i) ≡ []
chain_or_empty-replicate zero i = refl
chain_or_empty-replicate (suc n) zero = refl
chain_or_empty-replicate (suc n) (suc i) = chain_or_empty-replicate n i

bucket-dict_create_dict : (n i : ℕ) → bucket (dict_create_dict n) i ≡ []
unfolding bucket dict_create_dict
bucket-dict_create_dict n i = chain_or_empty-replicate n i

module _ (d : JsDict) (w : IsDict d) (k : Str) (v : JsValue) where
  -- A new chain for the hash of `k` puts a value if its own look-ups do.
  Puts-set_bucket :
      (c : Chain)
      → ((j : Str)
          → find_entry c j ≡ (
              if str_eq j k
              then some v
              else find_entry (bucket d (hash_string k d.bucket_count)) j))
      → ((s : ℕ)
          → s ≢ 0
          → find_symbol c s ≡ find_symbol (bucket d (hash_string k d.bucket_count)) s)
      → IsTagged c
      → Puts d k v (set_bucket d (hash_string k d.bucket_count) c)
  Puts-set_bucket c found kept t = record {
    keys = λ j.
        dict_get-set_bucket d w k j c
        ∙ unfold dict_get in ground (arith, found j, str_eq_sound j k);
    symbols = λ s n.
        by_symbol-set_bucket d w _ s c (hash_string-lt d k w)
        ∙ unfold dict_get_by_symbol in ground (arith, kept s n);
    valid = IsDict-set_bucket d _ c w (hash_string-lt d k w) t;
  }

  -- Adding a string key to a well-formed dictionary, when the collector returns an entry, succeeds:
  -- the key then has the value, no other answer changes, and the dictionary is well formed.
  pub dict_add_lem :
      (new_entry : ℕ)
      → new_entry ≢ 0
      → (d' : JsDict) × (dict_add new_entry d k v ≡ ok d') × Puts d k v d'
  unfolding dict_add find_entry key_is find_symbol
  dict_add_lem new_entry n = (
    set_bucket d (hash_string k d.bucket_count)
        (record { key = some k; symbol = 0; value = v } ∷ bucket d (hash_string k d.bucket_count)),
    ground (arith, ==_iff new_entry 0),
    Puts-set_bucket
        (record { key = some k; symbol = 0; value = v } ∷ bucket d (hash_string k d.bucket_count))
        (λ j. refl) (λ s n. ground arith) (inr refl, w.tagged _),
  )

  written : Chain
  written = write_entry (bucket d (hash_string k d.bucket_count)) k v

  written-Puts :
      dict_get d k ≢ none → Puts d k v (set_bucket d (hash_string k d.bucket_count) written)
  unfolding written dict_get
  written-Puts n =
      let c = bucket d (hash_string k d.bucket_count) in
      Puts-set_bucket (write_entry c k v)
        (λ j. ground (
          arith,
          find_entry-write_entry k j v c,
          has_entry-is_some c k,
          Option-cases (find_entry c k),
        ))
        (λ s ne. find_symbol-write_entry k k v c s (w.tagged _) ne)
        (IsTagged-write_entry c k v (w.tagged _))

  -- In a well-formed dictionary that has the key, `dict_update` returns true and puts the value:
  -- no other answer changes and the dictionary stays well formed.
  pub dict_update_present :
      dict_get d k ≢ none → ((dict_update d k v).0 ≡ true) × Puts d k v (dict_update d k v).1
  unfolding dict_update dict_get written
  dict_update_present n =
      let c = bucket d (hash_string k d.bucket_count) in
      (ground (arith, has_entry-is_some c k, Option-cases (find_entry c k)), written-Puts n)

  -- In a well-formed dictionary without the key, `dict_update` returns false and the dictionary as
  -- it was.
  dict_update_absent : dict_get d k ≡ none → dict_update d k v ≡ (false, d)
  unfolding dict_update dict_get
  dict_update_absent e =
      let c = bucket d (hash_string k d.bucket_count) in
      let gone : has_entry c k ≡ false = rw (has_entry-is_some c k, e) in
      rw (gone, write_entry-absent c k v gone, set_bucket-bucket d (hash_string k d.bucket_count))

module _ (d : JsDict) (w : IsDict d) (r : ℕ) (v : JsValue) where
  PutsSymbol-set_bucket :
      (c : Chain)
      → ((s : ℕ)
          → s ≢ 0
          → find_symbol c s ≡ (if s == r then some v else find_symbol (bucket d 0) s))
      → ((j : Str) → find_entry c j ≡ find_entry (bucket d 0) j)
      → IsTagged c
      → PutsSymbol d r v (set_bucket d 0 c)
  PutsSymbol-set_bucket c found kept t = record {
    keys = λ j.
        dict_get-set_bucket_at d w 0 j c w.nonempty ∙ unfold dict_get in ground (arith, kept j);
    symbols =
        λ s n. by_symbol-set_bucket d w 0 s c w.nonempty ∙ unfold dict_get_by_symbol in found s n;
    valid = IsDict-set_bucket d 0 c w w.nonempty t;
  }

  -- Adding a symbol to a well-formed dictionary, when the collector returns an entry, succeeds: the
  -- symbol then has the value, no other answer changes, and the dictionary is well formed.
  pub dict_add_with_symbol_lem :
      (new_entry : ℕ)
      → new_entry ≢ 0
      → (d' : JsDict) × (dict_add_with_symbol new_entry d r v ≡ ok d') × PutsSymbol d r v d'
  unfolding dict_add_with_symbol find_entry key_is find_symbol
  dict_add_with_symbol_lem new_entry n = (
    set_bucket d 0 (record { key = none; symbol = r; value = v } ∷ bucket d 0),
    ground (arith, ==_iff new_entry 0),
    PutsSymbol-set_bucket (record { key = none; symbol = r; value = v } ∷ bucket d 0)
        (λ s n. ground arith) (λ j. refl) (inl refl, w.tagged _),
  )

  -- In a well-formed dictionary that has the symbol (an address other than NULL),
  -- `dict_update_with_symbol` returns true and puts the value: no other answer changes and the
  -- dictionary stays well formed.
  dict_update_with_symbol_present :
      r ≢ 0
      → dict_get_by_symbol d r ≢ none
      → ((dict_update_with_symbol d r v).0 ≡ true)
        × PutsSymbol d r v (dict_update_with_symbol d r v).1
  unfolding dict_update_with_symbol dict_get_by_symbol
  dict_update_with_symbol_present rn n =
      let c = bucket d 0 in
      (
        ground (arith, has_symbol-is_some c r, Option-cases (find_symbol c r)),
        PutsSymbol-set_bucket (write_symbol c r v)
            (λ s ne. ground (
              arith,
              find_symbol-write_symbol r s v c,
              has_symbol-is_some c r,
              Option-cases (find_symbol c r),
            ))
            (λ j. find_entry-write_symbol r r v c j (w.tagged _) rn)
            (IsTagged-write_symbol c r v (w.tagged _)),
      )

  -- In a well-formed dictionary without the symbol, `dict_update_with_symbol` returns false and the
  -- dictionary as it was.
  pub dict_update_with_symbol_absent :
      dict_get_by_symbol d r ≡ none → dict_update_with_symbol d r v ≡ (false, d)
  unfolding dict_update_with_symbol dict_get_by_symbol
  dict_update_with_symbol_absent e =
      let c = bucket d 0 in
      let gone : has_symbol c r ≡ false = rw (has_symbol-is_some c r, e) in
      rw (gone, write_symbol-absent c r v gone, set_bucket-bucket d 0)

-- A new dictionary with at least one bucket is well formed, and has no string key and no symbol.
dict_create_dict_lem :
    (n : ℕ)
    → 0 < n
    → IsDict (dict_create_dict n)
      × ((k : Str) → dict_get (dict_create_dict n) k ≡ none)
      × ((s : ℕ) → dict_get_by_symbol (dict_create_dict n) s ≡ none)
unfolding dict_create_dict dict_get dict_get_by_symbol find_entry find_symbol
dict_create_dict_lem n h = (
  record {
    sized = length-replicate n [];
    nonempty = h;
    tagged = λ i. rw (bucket-dict_create_dict n i) tt;
  },
  λ k. rw (bucket-dict_create_dict n (hash_string k n)),
  λ s. rw (bucket-dict_create_dict n 0),
)
