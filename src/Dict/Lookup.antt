-- ===== src/Dict/Lookup.antt =====
-- core/dict.c: what the look-ups find after each update. A dictionary behaves as two maps, one from
-- strings and one from symbols.
use atomix_js.Prelude.{
  ℕ, ◌<◌, ◌≡◌, ◌≢◌, refl, ◌∙◌, ◌⊎◌, inl, inr, true, false, ◌&&◌, Option, none, some, [], ◌∷◌, Str,
  str_eq, str_eq_refl, str_eq_sound, ◌==◌, ==_iff, if◌then◌else◌, Bool-cases, arith, length,
  is_some, length-set, get_elem?-set_self, get_elem?-set_ne,
}
use atomix_js.Value.{JsValue}
use atomix_js.Dict.{
  Chain, JsDict, hash_string, bucket, set_bucket, key_is, find_entry, write_entry, has_entry,
  find_symbol, write_symbol, has_symbol, dict_get, dict_get_by_symbol,
}

-- A node has a key or a symbol, and not both.
abbrev pub IsTagged : Chain → Type 0
IsTagged [] = Unit
IsTagged (e ∷ c) = ((e.key ≡ none) ⊎ (e.symbol ≡ 0)) × IsTagged c

-- The bucket array is as long as `bucket_count` says, and not empty; every node is tagged.
pub record IsDict (d : JsDict) : Type 0 where
  pub sized : length d.buckets ≡ d.bucket_count
  pub nonempty : 0 < d.bucket_count
  pub tagged : (i : ℕ) → IsTagged (bucket d i)

pub hash_string-lt :
    (d : JsDict) (key : Str) → IsDict d → hash_string key d.bucket_count < d.bucket_count
unfolding hash_string
hash_string-lt d key w = omega (arith, w.nonempty)

bucket-set_bucket_self :
    (d : JsDict) (i : ℕ) (c : Chain)
    → IsDict d
    → i < d.bucket_count
    → bucket (set_bucket d i c) i ≡ c
unfolding bucket set_bucket
bucket-set_bucket_self d i c w h = rw (get_elem?-set_self d.buckets i c (omega (arith, w.sized)))

bucket-set_bucket_ne :
    (d : JsDict) (i j : ℕ) (c : Chain) → (i ≡ j → ⊥) → bucket (set_bucket d i c) j ≡ bucket d j
unfolding bucket set_bucket
bucket-set_bucket_ne d i j c h = rw (get_elem?-set_ne d.buckets i j c h)

pub IsDict-set_bucket :
    (d : JsDict) (i : ℕ) (c : Chain)
    → IsDict d
    → i < d.bucket_count
    → IsTagged c
    → IsDict (set_bucket d i c)
IsDict-set_bucket d i c w h t = record {
  sized = sized;
  nonempty = nonempty;
  tagged = λ j. elim (Bool-cases (i == j)) [
    | inl e ↦ rw (← (==_iff i j).0 e, bucket-set_bucket_self d i c w h) t
    | inr n ↦ rw (bucket-set_bucket_ne d i j c (λ e. ground (arith, ==_iff i j))) (w.tagged j)
  ];
}
  where
    sized : length (set_bucket d i c).buckets ≡ (set_bucket d i c).bucket_count
    sized = unfold set_bucket in (length-set d.buckets i c ∙ w.sized)

    nonempty : 0 < (set_bucket d i c).bucket_count
    nonempty = unfold set_bucket in w.nonempty

-- Two keys that fit one node are equal.
pub key_is_unique :
    (key : Option Str) (k j : Str) → key_is key k ≡ true → key_is key j ≡ true → str_eq j k ≡ true
unfolding key_is
key_is_unique none k j a b = ground arith
key_is_unique (some x) k j a b = rw (str_eq_sound k x a, str_eq_sound j x b) (str_eq_refl x)

module _ (k j : Str) (v : JsValue) where
  -- A chain after a write: the key that was written, if it was there, has the new value.
  pub find_entry-write_entry :
      (c : Chain)
      → find_entry (write_entry c k v) j
        ≡ (if str_eq j k && has_entry c k then some v else find_entry c j)
  unfolding find_entry write_entry has_entry
  find_entry-write_entry [] = ground arith
  find_entry-write_entry (e ∷ c) = elim (Bool-cases (str_eq j k)) [
    | inl s ↦ let same = str_eq_sound j k s in ground (arith, same, find_entry-write_entry c)
    | inr n ↦ ground (arith, find_entry-write_entry c, key_is_unique e.key k j)
  ]

  has_entry-find_entry : (c : Chain) → has_entry c k ≡ false → find_entry c k ≡ none
  unfolding find_entry has_entry
  has_entry-find_entry [] h = refl
  has_entry-find_entry (e ∷ c) h = ground (arith, has_entry-find_entry c)

  -- Writing under a key leaves the nodes of symbols alone.
  pub find_symbol-write_entry :
      (c : Chain) (s : ℕ) → IsTagged c → s ≢ 0 → find_symbol (write_entry c k v) s ≡ find_symbol c s
  unfolding find_symbol write_entry key_is
  find_symbol-write_entry [] s t n = refl
  find_symbol-write_entry (e ∷ c) s (h, t) n = ground (arith, h, find_symbol-write_entry c s t n)

pub IsTagged-write_entry :
    (c : Chain) (k : Str) (v : JsValue) → IsTagged c → IsTagged (write_entry c k v)
unfolding write_entry
IsTagged-write_entry [] k v t = tt
IsTagged-write_entry (e ∷ c) k v (h, t) = elim (Bool-cases (key_is e.key k)) [
  | inl a ↦ rw a (h, t)
  | inr a ↦ rw a (h, IsTagged-write_entry c k v t)
]

pub bucket_count-set_bucket :
    (d : JsDict) (i : ℕ) (c : Chain) → (set_bucket d i c).bucket_count ≡ d.bucket_count
unfolding set_bucket
bucket_count-set_bucket d i c = refl

pub IsTagged-write_symbol :
    (c : Chain) (s : ℕ) (v : JsValue) → IsTagged c → IsTagged (write_symbol c s v)
unfolding write_symbol
IsTagged-write_symbol [] s v t = tt
IsTagged-write_symbol (e ∷ c) s v (h, t) = elim (Bool-cases (e.symbol == s)) [
  | inl a ↦ rw a (h, t)
  | inr a ↦ rw a (h, IsTagged-write_symbol c s v t)
]

module _ (s r : ℕ) (v : JsValue) where
  pub find_symbol-write_symbol :
      (c : Chain)
      → find_symbol (write_symbol c s v) r
        ≡ (if (r == s) && has_symbol c s then some v else find_symbol c r)
  unfolding find_symbol write_symbol has_symbol
  find_symbol-write_symbol [] = ground arith
  find_symbol-write_symbol (e ∷ c) = ground (arith, find_symbol-write_symbol c)

  pub find_entry-write_symbol :
      (c : Chain) (j : Str)
      → IsTagged c
      → s ≢ 0
      → find_entry (write_symbol c s v) j ≡ find_entry c j
  unfolding find_entry write_symbol key_is
  find_entry-write_symbol [] j t n = refl
  find_entry-write_symbol (e ∷ c) j (h, t) n = ground (arith, h, find_entry-write_symbol c j t n)

pub has_entry-is_some : (c : Chain) (k : Str) → has_entry c k ≡ is_some (find_entry c k)
unfolding has_entry find_entry
has_entry-is_some [] k = refl
has_entry-is_some (e ∷ c) k = ground (arith, has_entry-is_some c k)

pub has_symbol-is_some : (c : Chain) (s : ℕ) → has_symbol c s ≡ is_some (find_symbol c s)
unfolding has_symbol find_symbol
has_symbol-is_some [] s = refl
has_symbol-is_some (e ∷ c) s = ground (arith, has_symbol-is_some c s)

-- The look-ups by string, and by symbol, give the same before and after.
abbrev pub SameKeys : JsDict → JsDict → Type 0
SameKeys d d' = (j : Str) → dict_get d' j ≡ dict_get d j

abbrev pub SameSymbols : JsDict → JsDict → Type 0
SameSymbols d d' = (s : ℕ) → s ≢ 0 → dict_get_by_symbol d' s ≡ dict_get_by_symbol d s

module _ (d : JsDict) (w : IsDict d) where
  -- Replacing one chain changes the look-up of the keys with that hash alone.
  pub dict_get-set_bucket_at :
      (i : ℕ) (j : Str) (c : Chain)
      → i < d.bucket_count
      → dict_get (set_bucket d i c) j
        ≡ (if i == hash_string j d.bucket_count then find_entry c j else dict_get d j)
  unfolding dict_get
  dict_get-set_bucket_at i j c h =
      rw (bucket_count-set_bucket) (elim (Bool-cases (i == hash_string j d.bucket_count)) [
        | inl e ↦ rw (e, ← (==_iff i _).0 e, bucket-set_bucket_self d i c w h)
        | inr n ↦ rw (
          n,
          bucket-set_bucket_ne d i (hash_string j d.bucket_count) c
              (λ e. ground (arith, ==_iff i (hash_string j d.bucket_count))),
        )
      ])

  pub dict_get-set_bucket :
      (k j : Str) (c : Chain)
      → dict_get (set_bucket d (hash_string k d.bucket_count) c) j ≡ (
          if hash_string k d.bucket_count == hash_string j d.bucket_count
          then find_entry c j
          else dict_get d j)
  dict_get-set_bucket k j c = dict_get-set_bucket_at _ j c (hash_string-lt d k w)

  pub by_symbol-set_bucket :
      (i s : ℕ) (c : Chain)
      → i < d.bucket_count
      → dict_get_by_symbol (set_bucket d i c) s
        ≡ (if i == 0 then find_symbol c s else dict_get_by_symbol d s)
  unfolding dict_get_by_symbol
  by_symbol-set_bucket i s c h = elim (Bool-cases (i == 0)) [
    | inl e ↦ rw (e, (==_iff i 0).0 e, bucket-set_bucket_self d 0 c w (w.nonempty))
    | inr n ↦ rw (n, bucket-set_bucket_ne d i 0 c (λ e. ground (arith, ==_iff i 0)))
  ]
