-- ===== src/Loader/Trip/Strings.antt =====
-- The string table that atomixc writes, read back by the loader.
use atomix_js.Prelude.{
  ℕ, zero, suc, ◌+◌, ◌*◌, ◌≡◌, ◌≤◌, ◌<◌, refl, ap, ◌∙◌, List, [], ◌∷◌, ◌++◌, Str, length,
  length-append, get_elem?, get_elem?-some-lt, take, drop, arith, some,
}
use native.Mathlib.Nat.{add_assoc}
use mathlib.Core.Path.{subst}
use mathlib.Core.Option.{some-injective}
use atomix_js.Prelude.Result.{ok}
use atomix_js.Prelude.Word.{sub64}
use atomix_js.Format.{bytes_at}
use atomix_js.Vm.{Vm}
use atomix_js.Vm.Exec.{Host}
use atomix_js.Vm.Succeeds.{
  Succeeds, succeeds, Succeeds-bind, Allocates, gc_malloc_checked-Succeeds,
  gc_malloc_unchecked-Succeeds,
}
use atomix_js.Loader.Bytes.{Buffer, read_offsets}
use atomix_js.Loader.Strings.{str_buff_length, load_string_table}
use atomix_js.Loader.Write.{write_uint, concat, write_offsets, stable_length, write_stable}
use atomix_js.Loader.Trip.Code.{Gives}
use atomix_js.Loader.Trip.Holds.{
  Holds, byte, Holds-front, Holds-back, byte_bound, length-write_uint, Holds-next, read_uint-front,
}
use atomix_js.Loader.Trip.Table.{offsets_of, table_of}

module _ (y : ℕ) (xs : Buffer) where
  drop_shifted : (i : ℕ) → drop (i + 1) xs ≡ drop (suc i + 1) (y ∷ xs)
  drop_shifted i = ap (λ n. drop n (y ∷ xs)) (same i)
    where
      same : (i : ℕ) → suc (i + 1) ≡ suc i + 1
      same i = omega arith

drop_elem : (xs : Buffer) (i x : ℕ) → get_elem? xs i ≡ some x → drop i xs ≡ x ∷ drop (i + 1) xs
drop_elem [] i x is = let b = get_elem?-some-lt [] i x is in absurd (omega arith)
drop_elem (y ∷ xs) zero x is = ap (λ u. u ∷ xs) (some-injective y x is)
drop_elem (y ∷ xs) (suc i) x is = drop_elem xs i x is ∙ ap (λ u. x ∷ u) (drop_shifted y xs i)

module _ (buff : Buffer) where
  Holds-end :
      (position b : ℕ) (bytes : Buffer)
      → Holds buff position (b ∷ bytes)
      → position + length (b ∷ bytes) ≤ length buff
  Holds-end position b [] (byte is held) =
      let e = get_elem?-some-lt buff position b is in omega arith
  Holds-end position b (c ∷ bytes) (byte is held) =
      let e = Holds-end (position + 1) c bytes held in omega arith

  Holds-within :
      (position : ℕ) (bytes : Buffer)
      → 1 ≤ length bytes
      → Holds buff position bytes
      → position + length bytes ≤ length buff
  Holds-within position [] filled held = absurd (omega arith)
  Holds-within position (b ∷ bytes) filled held = Holds-end position b bytes held

  take-Holds :
      (position : ℕ) (bytes : Buffer)
      → Holds buff position bytes
      → take (length bytes) (drop position buff) ≡ bytes
  take-Holds position [] held = refl
  take-Holds position (b ∷ bytes) (byte is held) =
      rw (drop_elem buff position b is, take-Holds (position + 1) bytes held) refl

  bytes_at-Holds :
      (position : ℕ) (bytes : Buffer)
      → position + length bytes ≤ length buff
      → Holds buff position bytes
      → bytes_at buff position (length bytes) ≡ ok bytes
  unfolding bytes_at
  bytes_at-Holds position bytes inside held = rw (take-Holds position bytes held) (ground arith)

  read_offsets-write_offsets :
      (ss : List Str) (offset position : ℕ)
      → offset + length (concat ss) < byte_bound 4
      → Holds buff position (write_offsets offset ss)
      → read_offsets (length ss) buff position ≡ ok (offsets_of offset ss)
  unfolding read_offsets write_offsets offsets_of concat
  read_offsets-write_offsets [] offset position small held = refl
  read_offsets-write_offsets (s ∷ ss) offset position small held =
      let l = length-append s (concat ss) in
      rw
        (
          read_uint-front buff 4 offset position (write_offsets (offset + length s) ss)
              (omega arith) held,
          read_offsets-write_offsets ss (offset + length s) (position + 4) (omega arith)
              (Holds-next buff 4 offset position (write_offsets (offset + length s) ss) held),
        )
        refl

length-write_offsets :
    (offset : ℕ) (ss : List Str) → length (write_offsets offset ss) ≡ length ss * 4
unfolding write_offsets
length-write_offsets offset [] = refl
length-write_offsets offset (s ∷ ss) =
    let e = length-write_offsets (offset + length s) ss in
    let w = length-write_uint 4 offset in
    let l = length-append (write_uint 4 offset) (write_offsets (offset + length s) ss) in
    omega arith

pub length-write_stable : (ss : List Str) → length (write_stable ss) ≡ stable_length ss
unfolding write_stable stable_length
length-write_stable ss =
    rw
      (
        length-append (write_uint 4 (stable_length ss))
            (write_uint 4 (length ss) ++ (write_offsets 0 ss ++ concat ss)),
        length-append (write_uint 4 (length ss)) (write_offsets 0 ss ++ concat ss),
        length-append (write_offsets 0 ss) (concat ss),
        length-write_offsets 0 ss,
        length-write_uint 4 (stable_length ss),
        length-write_uint 4 (length ss),
      )
      (omega arith)

stable_lem : (ss : List Str) → stable_length ss ≡ 8 + 4 * length ss + length (concat ss)
unfolding stable_length
stable_lem ss = refl

str_buff_length_lem :
    (ss : List Str)
    → stable_length ss < byte_bound 4
    → str_buff_length (stable_length ss) (length ss) ≡ length (concat ss)
unfolding str_buff_length stable_length sub64
str_buff_length_lem ss small = omega arith

module _ (h : Host) (memory : Allocates h) (buff : Buffer) (ss : List Str) (start : ℕ)
    (small : stable_length ss < byte_bound 4) (held : Holds buff start (write_stable ss)) where
  abbrev entries : Buffer
  entries = write_offsets 0 ss ++ concat ss

  abbrev counted : Buffer
  counted = write_uint 4 (length ss) ++ entries

  whole : Holds buff start (write_uint 4 (stable_length ss) ++ counted)
  unfolding write_stable
  whole = held

  count_held : Holds buff (start + 4) counted
  count_held = Holds-next buff 4 (stable_length ss) start counted whole

  entries_held : Holds buff (start + 8) entries
  entries_held =
      subst (λ p. Holds buff p entries) (add_assoc start 4 4)
        (Holds-next buff 4 (length ss) (start + 4) entries count_held)

  bytes_held : Holds buff (start + 8 + length ss * 4) (concat ss)
  bytes_held =
      subst (λ n. Holds buff (start + 8 + n) (concat ss)) (length-write_offsets 0 ss)
        (Holds-back (start + 8) (write_offsets 0 ss) (concat ss) entries_held)

  count_small : length ss < byte_bound 4
  unfolding stable_length
  count_small = omega arith

  total_small : 0 + length (concat ss) < byte_bound 4
  unfolding stable_length
  total_small = omega arith

  bytes_inside : start + 8 + length ss * 4 + length (concat ss) ≤ length buff
  bytes_inside =
      let total = stable_lem ss in
      let l = length-write_stable ss in
      let w = Holds-within buff start (write_stable ss) (omega arith) held in omega arith

  pub load_string_table_lem :
      (vm : Vm) → Succeeds (Gives (table_of ss)) (load_string_table h buff start vm)
  unfolding load_string_table
  load_string_table_lem vm =
      rw
        (
          read_uint-front buff 4 (stable_length ss) start counted small whole,
          read_uint-front buff 4 (length ss) (start + 4) entries count_small count_held,
        )
        (Succeeds-bind (gc_malloc_checked-Succeeds h memory vm) λ p w u.
          rw
            (read_offsets-write_offsets buff ss 0 (start + 8) total_small
              (Holds-front (start + 8) (write_offsets 0 ss) (concat ss) entries_held))
            (Succeeds-bind (gc_malloc_unchecked-Succeeds h memory w) λ q w1 u1.
              rw
                (
                  str_buff_length_lem ss small,
                  bytes_at-Holds buff (start + 8 + length ss * 4) (concat ss) bytes_inside
                      bytes_held,
                )
                (succeeds refl)))
