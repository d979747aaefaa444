-- ===== src/Format/Search.antt =====
-- `bundle_get_module` of core/format.c: where the binary search ends.
use atomix_js.Prelude.{
  ℕ, zero, suc, ◌+◌, ◌-◌, ◌%◌, ◌<◌, ◌≤◌, ◌≡◌, ◌⊎◌, inl, inr, none, some, List, ltb, leb, ◌==◌,
  if◌then◌else◌, Bool-cases, arith, length, get_elem?, get_elem?-lt, get_elem?-ge,
  get_elem?-some-lt, Option-cases,
}
use atomix_js.Format.{
  module_at, not_in_bundle, outside_array, middle, search_loop, bundle_search, u16_mod,
}

-- The modules stand in the order of their hashes, with no hash twice, and there are as many as a
-- `uint16_t` counts.
pub record IsSorted (hashes : List ℕ) : Type 0 where
  pub increasing :
      (i j a b : ℕ) → i < j → get_elem? hashes i ≡ some a → get_elem? hashes j ≡ some b → a < b
  pub fits : length hashes < u16_mod

mod-small : (n : ℕ) → n < u16_mod → n % u16_mod ≡ n
mod-small n h = omega arith

wrap-pred : (n : ℕ) → 0 < n → n < u16_mod → (n + u16_mod - 1) % u16_mod ≡ n - 1
wrap-pred n p h = omega arith

module _ (hashes : List ℕ) (w : IsSorted hashes) (hash : ℕ) where
  -- One round of the loop where `mid` lies in the array.
  search_loop-round :
      (fuel low high h : ℕ)
      → low ≤ high
      → get_elem? hashes (middle low high) ≡ some h
      → search_loop (suc fuel) hashes hash low high ≡ (
          if h == hash
          then module_at (middle low high)
          else if ltb h hash
          then search_loop fuel hashes hash ((middle low high + 1) % u16_mod) high
          else search_loop fuel hashes hash low ((middle low high + u16_mod - 1) % u16_mod))
  unfolding search_loop
  search_loop-round fuel low high h le at = ground (arith, at)

  search_loop-outside :
      (fuel low high : ℕ)
      → low ≤ high
      → get_elem? hashes (middle low high) ≡ none
      → search_loop (suc fuel) hashes hash low high ≡ outside_array
  unfolding search_loop
  search_loop-outside fuel low high le at = ground (arith, at)

  -- A hash stands at one index only.
  index-eq : (i j a : ℕ) → get_elem? hashes i ≡ some a → get_elem? hashes j ≡ some a → i ≡ j
  index-eq i j a p q = ground (arith, w.increasing i j a a, w.increasing j i a a)

  -- Of two indices the one with the smaller hash is the smaller.
  index-lt :
      (i j a b : ℕ) → get_elem? hashes i ≡ some a → get_elem? hashes j ≡ some b → a < b → i < j
  index-lt i j a b p q lt = ground (arith, w.increasing j i b a, index-eq i j a p)

  -- The module with this hash is found while it stands between the bounds.
  search_loop-present :
      (fuel low high k : ℕ)
      → get_elem? hashes k ≡ some hash
      → low ≤ k
      → k ≤ high
      → k < length hashes
      → high ≤ length hashes
      → high - low < fuel
      → search_loop fuel hashes hash low high ≡ module_at k
  unfolding middle
  search_loop-present zero low high k at lo hi len top h = absurd (omega arith)
  search_loop-present (suc fuel) low high k at lo hi len top h =
      let m = middle low high in
      let (v, e) = get_elem?-lt hashes m (omega arith) in
      rw (search_loop-round fuel low high v (omega arith) e) (
        ground (
          arith,
          w.fits,
          index-eq m k v,
          index-lt m k v hash e at,
          index-lt k m hash v at e,
          search_loop-present fuel (m + 1) high k at,
          search_loop-present fuel low (m - 1) k at,
          mod-small (m + 1),
          wrap-pred m,
        ))

  -- A hash between those of two neighbours: the bounds cross.
  search_loop-between :
      (fuel low high k a b : ℕ)
      → get_elem? hashes k ≡ some a
      → get_elem? hashes (k + 1) ≡ some b
      → a < hash
      → hash < b
      → low ≤ k + 1
      → k ≤ high
      → k + 1 < length hashes
      → high ≤ length hashes
      → high + 1 - low < fuel
      → search_loop fuel hashes hash low high ≡ not_in_bundle
  unfolding middle search_loop
  search_loop-between zero low high k a b p q s t lo hi len top h = absurd (omega arith)
  search_loop-between (suc fuel) low high k a b p q s t lo hi len top h =
      let m = middle low high in
      elim (Bool-cases (leb low high)) [
        | inr n ↦ rw n
        | inl y ↦
            let (v, e) = get_elem?-lt hashes m (ground arith) in
            let le : low ≤ high = ground arith in
            rw (search_loop-round fuel low high v le e) (
              ground (
                arith,
                w.fits,
                index-lt m (k + 1) v b e q,
                index-lt k m a v p e,
                search_loop-between fuel (m + 1) high k a b p q s t,
                search_loop-between fuel low (m - 1) k a b p q s t,
                mod-small (m + 1),
                wrap-pred m,
              ))
      ]

  -- A hash above all: `low` reaches the length of the array, which is then read.
  search_loop-above :
      (fuel low : ℕ)
      → ((i a : ℕ) → get_elem? hashes i ≡ some a → a < hash)
      → low ≤ length hashes
      → length hashes - low < fuel
      → search_loop fuel hashes hash low (length hashes) ≡ outside_array
  unfolding middle
  search_loop-above zero low above lo h = absurd (omega arith)
  search_loop-above (suc fuel) low above lo h =
      let m = middle low (length hashes) in
      elim (Option-cases (get_elem? hashes m)) [
        | inl out ↦ search_loop-outside fuel low (length hashes) lo out
        | inr (v, e) ↦ rw (search_loop-round fuel low (length hashes) v lo e) (
            ground (
              arith,
              w.fits,
              above m v e,
              get_elem?-some-lt hashes m v e,
              search_loop-above fuel (m + 1) above,
              mod-small (m + 1),
            ))
      ]

  search_loop-far :
      (fuel : ℕ)
      → length hashes < 32767
      → 0 < fuel
      → search_loop fuel hashes hash 0 65535 ≡ outside_array
  unfolding middle
  search_loop-far zero short h = absurd (omega arith)
  search_loop-far (suc fuel) short h =
      search_loop-outside fuel 0 65535 (omega arith) (get_elem?-ge hashes 32767 (omega arith))

  -- A hash below all: `high` falls until `mid` is 0, and `mid - 1` wraps to 65535.
  search_loop-below :
      (fuel high : ℕ)
      → ((i a : ℕ) → get_elem? hashes i ≡ some a → hash < a)
      → length hashes < 32767
      → high ≤ length hashes
      → high + 1 < fuel
      → search_loop fuel hashes hash 0 high ≡ outside_array
  unfolding middle
  search_loop-below zero high below short top h = absurd (omega arith)
  search_loop-below (suc fuel) high below short top h =
      let m = middle 0 high in
      elim (Option-cases (get_elem? hashes m)) [
        | inl out ↦ search_loop-outside fuel 0 high (omega arith) out
        | inr (v, e) ↦
            rw (search_loop-round fuel 0 high v (omega arith) e) (elim (Bool-cases (m == 0)) [
              | inl z ↦ ground (arith, below m v e, search_loop-far fuel short)
              | inr p ↦ ground (
                arith,
                w.fits,
                below m v e,
                search_loop-below fuel (m - 1) below short,
                wrap-pred m,
              )
            ])
      ]

  -- A bundle whose module hashes increase: a hash that is there is found, at its index.
  pub bundle_search_present :
      (fuel k : ℕ)
      → get_elem? hashes k ≡ some hash
      → length hashes < fuel
      → bundle_search fuel hashes hash ≡ module_at k
  unfolding bundle_search
  bundle_search_present fuel k at h =
      let len = get_elem?-some-lt hashes k hash at in
      rw (mod-small (length hashes) w.fits) (
        search_loop-present fuel 0 (length hashes) k at (omega arith) (omega arith) len
          (omega arith) (omega arith))

  -- A hash that falls between two neighbours is reported as absent.
  pub bundle_search_between :
      (fuel k a b : ℕ)
      → get_elem? hashes k ≡ some a
      → get_elem? hashes (k + 1) ≡ some b
      → a < hash
      → hash < b
      → length hashes + 1 < fuel
      → bundle_search fuel hashes hash ≡ not_in_bundle
  unfolding bundle_search
  bundle_search_between fuel k a b p q s t h =
      let len = get_elem?-some-lt hashes (k + 1) b q in
      rw (mod-small (length hashes) w.fits) (
        search_loop-between fuel 0 (length hashes) k a b p q s t (omega arith) (omega arith) len
          (omega arith) (omega arith))

  -- A hash above all or below all makes the search read outside the array of modules (the last for
  -- fewer than 32767 modules).
  pub bundle_search_beyond :
      (fuel : ℕ)
      → length hashes < 32767
      → length hashes + 1 < fuel
      → ((i a : ℕ) → get_elem? hashes i ≡ some a → a < hash)
        ⊎ ((i a : ℕ) → get_elem? hashes i ≡ some a → hash < a)
      → bundle_search fuel hashes hash ≡ outside_array
  unfolding bundle_search
  bundle_search_beyond fuel short h (inl above) =
      rw (mod-small (length hashes) w.fits)
        (search_loop-above fuel 0 above (omega arith) (omega arith))
  bundle_search_beyond fuel short h (inr below) =
      rw (mod-small (length hashes) w.fits)
        (search_loop-below fuel (length hashes) below short (omega arith) (omega arith))
