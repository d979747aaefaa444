-- ===== src/Dict/Remove.antt =====
-- core/dict.c: which deletions succeed, and what they leave.
use mathlib.Core.Logic.{◌≢◌}
use atomix_js.Prelude.{
  ℕ, zero, suc, ◌≡◌, refl, ◌∙◌, ap, inl, inr, Bool, true, false, Option, none, some, ℕ, [], ◌∷◌,
  Str, str_eq, ◌==◌, if◌then◌else◌, Bool-cases, Option-cases, arith, is_some,
}
use atomix_js.Prelude.Result.{Result, ok, fault}
use atomix_js.Dict.{
  JsProperty, Chain, JsDict, hash_string, bucket, set_bucket, key_is, find_entry, find_symbol,
  dict_get, dict_get_by_symbol,
}
use atomix_js.Dict.Delete.{find_position, unlink_behind, unlink_at, delete_first, dict_delete}
use atomix_js.Dict.Lookup.{
  IsDict, IsTagged, SameSymbols, hash_string-lt, dict_get-set_bucket, by_symbol-set_bucket,
  key_is_unique, IsDict-set_bucket,
}

-- The chain without its first node that fits.
unfoldable pub remove_first : (JsProperty → Bool) → Chain → Chain
remove_first fits [] = []
remove_first fits (e ∷ c) = if fits e then c else e ∷ remove_first fits c

module _ (fits : JsProperty → Bool) where
  find_position-suc :
      (e : JsProperty) (c : Chain) (i : ℕ)
      → find_position fits (e ∷ c) ≡ some (suc i)
      → (fits e ≡ false) × (find_position fits c ≡ some i)
  unfolding find_position
  find_position-suc e c i h = ground arith

  unlink_behind-remove_first :
      (c : Chain) (i : ℕ) (prev : JsProperty)
      → find_position fits c ≡ some i
      → unlink_behind (suc i) (prev ∷ c) ≡ ok (prev ∷ remove_first fits c)
  unfolding unlink_behind find_position remove_first
  unlink_behind-remove_first [] i prev h = ground arith
  unlink_behind-remove_first (e ∷ c) zero prev h = elim (Bool-cases (fits e)) [
    | inl f ↦ rw f
    | inr f ↦ ground arith
  ]
  unlink_behind-remove_first (e ∷ c) (suc i) prev h = elim (Bool-cases (fits e)) [
    | inl f ↦ ground arith
    | inr f ↦ rw (f, unlink_behind-remove_first c i e (ground arith))
  ]

  -- Unlinking works at every position but the second.
  unlink_at-remove_first :
      (c : Chain) (i : ℕ)
      → find_position fits c ≡ some i
      → unlink_at i c ≡ (if i == 1 then fault else ok (remove_first fits c))
  unfolding unlink_at find_position remove_first
  unlink_at-remove_first [] i h = ground arith
  unlink_at-remove_first (e ∷ c) zero h = ground arith
  unlink_at-remove_first (e ∷ c) (suc zero) h = unfold unlink_behind in refl
  unlink_at-remove_first (e ∷ []) (suc (suc i)) h = ground arith
  unlink_at-remove_first (e ∷ e' ∷ c) (suc (suc i)) h =
      let (f, h') = find_position-suc e (e' ∷ c) (suc i) h in
      let (f', h'') = find_position-suc e' c i h' in
      rw (unlink_at, unlink_behind-remove_first c i e' h'') (ground arith)

  find_position-none : (c : Chain) → find_position fits c ≡ none → remove_first fits c ≡ c
  unfolding find_position remove_first
  find_position-none [] h = refl
  find_position-none (e ∷ c) h =
      ground (arith, find_position-none c, Option-cases (find_position fits c))

  IsTagged-remove_first : (c : Chain) → IsTagged c → IsTagged (remove_first fits c)
  unfolding remove_first
  IsTagged-remove_first [] t = tt
  IsTagged-remove_first (e ∷ c) (h, t) = elim (Bool-cases (fits e)) [
    | inl f ↦ rw f t
    | inr f ↦ rw f (h, IsTagged-remove_first c t)
  ]

module _ (k : Str) where
  -- The test of the loop in `dict_delete`.
  abbrev pub fits_key : JsProperty → Bool
  fits_key e = key_is e.key k

  find_position-find_entry :
      (c : Chain) → is_some (find_position fits_key c) ≡ is_some (find_entry c k)
  unfolding find_position find_entry
  find_position-find_entry [] = refl
  find_position-find_entry (e ∷ c) =
      ground (arith, find_position-find_entry c, Option-cases (find_position fits_key c))

  find_entry-remove_first :
      (c : Chain) (j : Str)
      → str_eq j k ≡ false
      → find_entry (remove_first fits_key c) j ≡ find_entry c j
  unfolding remove_first find_entry
  find_entry-remove_first [] j n = refl
  find_entry-remove_first (e ∷ c) j n =
      ground (arith, find_entry-remove_first c j n, key_is_unique e.key k j)

  find_symbol-remove_first :
      (c : Chain) (s : ℕ)
      → IsTagged c
      → s ≢ 0
      → find_symbol (remove_first fits_key c) s ≡ find_symbol c s
  unfolding remove_first find_symbol key_is
  find_symbol-remove_first [] s t n = refl
  find_symbol-remove_first (e ∷ c) s (h, t) n = ground (arith, h, find_symbol-remove_first c s t n)

-- What a deletion does, by the position of the key in its chain. A deletion of the second node is
-- undefined behaviour.
unfoldable pub deleted : JsDict → Str → Option ℕ → Result (Bool × JsDict)
deleted d k none = ok (false, d)
deleted d k (some i) =
    if i == 1
    then fault
    else ok (
      true,
      set_bucket d (hash_string k d.bucket_count)
          (remove_first (λ e. key_is e.key k) (bucket d (hash_string k d.bucket_count))),
    )

not_second :
    (d : JsDict) (k : Str) (i : ℕ)
    → i ≢ 1
    → deleted d k (some i)
      ≡ ok (
        true,
        set_bucket d
            (hash_string k d.bucket_count)
            (remove_first (λ e. key_is e.key k) (bucket d (hash_string k d.bucket_count))),
      )
unfolding deleted
not_second d k i n = ground arith

module _ (d : JsDict) (k : Str) where
  abbrev pub key_chain : Chain
  key_chain = bucket d (hash_string k d.bucket_count)

  -- Deleting a key that is absent changes nothing; one whose node stands second in its chain is
  -- undefined behaviour; any other unlinks exactly the first node with that key.
  pub dict_delete_lem : dict_delete d k ≡ deleted d k (find_position (fits_key k) key_chain)
  unfolding dict_delete delete_first deleted
  dict_delete_lem = elim (Option-cases (find_position (fits_key k) key_chain)) [
    | inl e ↦ rw (delete_first, e)
    | inr (i, e) ↦
        rw (delete_first, e, unlink_at-remove_first (fits_key k) key_chain i e) (ground arith)
  ]

  -- In a well-formed dictionary, where the node of the key does not stand second in its chain, the deletion returns, says
  -- whether the key was there, and changes the answer for no other key and for no symbol.
  pub dict_delete_keeps :
      IsDict d
      → find_position (fits_key k) key_chain ≢ some 1
      → (d' : JsDict) × (dict_delete d k ≡ ok (is_some (dict_get d k), d'))
        × ((j : Str) → str_eq j k ≡ false → dict_get d' j ≡ dict_get d j)
        × SameSymbols d d'
        × IsDict d'
  dict_delete_keeps w second = elim (Option-cases (find_position (fits_key k) key_chain)) [
    | inl e ↦
        let gone : dict_get d k ≡ none = absent e in
        (d, rw gone (dict_delete_lem ∙ unfold deleted in rw e), λ j n. refl, λ s n. refl, w)
    | inr (i, e) ↦ (
      set_bucket d (hash_string k d.bucket_count) (remove_first (fits_key k) key_chain),
      rw (present i e) (dict_delete_lem ∙ rw e (not_second d k i (λ o. second (e ∙ ap some o)))),
      λ j n.
          dict_get-set_bucket d w k j _
          ∙ unfold dict_get in ground (arith, find_entry-remove_first k key_chain j n),
      λ s n.
          by_symbol-set_bucket d w _ s _ (hash_string-lt d k w)
          ∙ unfold dict_get_by_symbol in
            ground (arith, find_symbol-remove_first k key_chain s (w.tagged _) n),
      IsDict-set_bucket d _ _ w (hash_string-lt d k w)
          (IsTagged-remove_first (fits_key k) key_chain (w.tagged _)),
    )
  ]
    where
      absent : find_position (fits_key k) key_chain ≡ none → dict_get d k ≡ none
      absent e =
          unfold dict_get in
          ground
            (arith, e, find_position-find_entry k key_chain, Option-cases (find_entry key_chain k))

      present :
          (i : ℕ) → find_position (fits_key k) key_chain ≡ some i → is_some (dict_get d k) ≡ true
      present i e = unfold dict_get in ground (arith, e, find_position-find_entry k key_chain)
