-- ===== src/Loader/Trip/Table.antt =====
-- The string table that atomixc writes: where its strings start, and what `string_table_load_str`
-- of core/format.c finds there.
use atomix_js.Prelude.{
  ℕ, zero, suc, ◌+◌, ◌≡◌, ◌≤◌, ◌<◌, refl, sym, ap, List, [], ◌∷◌, ◌++◌, Str, length, length-append,
  get_elem?, get_elem?-some-lt, ◌∙◌, take, drop, arith, some, Bool-cases, inl, inr, ◌==◌, leb, ltb,
  false,
}
use mathlib.Core.Option.{some-injective}
use native.Mathlib.Nat.{zero-add}
use atomix_js.Prelude.Result.{ok}
use atomix_js.Prelude.Word.{u32_mod}
use atomix_js.Format.Element.{element_lem}
use atomix_js.Format.{StringTable, bytes_at, c_string, string_length, string_table_load_str}
use atomix_js.Loader.Write.{concat, stable_length}

unfoldable pub offsets_of : ℕ → List Str → List ℕ
offsets_of offset [] = []
offsets_of offset (s ∷ ss) = offset ∷ offsets_of (offset + length s) ss

-- The table of the strings, as the loader stores it.
abbrev pub table_of : List Str → StringTable
table_of ss = record {
  length = stable_length ss;
  count = length ss;
  offsets = offsets_of 0 ss;
  strings = concat ss;
}

-- No character is NUL.
unfoldable pub HasNoNul : Str → Type 0
HasNoNul [] = Unit
HasNoNul (c ∷ s) = ((c == 0) ≡ false) × HasNoNul s

-- Where string `i` starts.
unfoldable start_of : ℕ → List Str → ℕ
start_of zero ss = 0
start_of (suc i) [] = 0
start_of (suc i) (s ∷ ss) = length s + start_of i ss

offset_at :
    (i o : ℕ) (ss : List Str)
    → i < length ss
    → get_elem? (offsets_of o ss) i ≡ some (o + start_of i ss)
unfolding offsets_of start_of
offset_at i o [] below = absurd (omega arith)
offset_at zero o (s ∷ ss) below = ap some (omega arith)
offset_at (suc i) o (s ∷ ss) below =
    offset_at i (o + length s) ss (omega arith) ∙ ap some (omega arith)

start_next :
    (i : ℕ) (ss : List Str) (s : Str)
    → get_elem? ss i ≡ some s
    → start_of (suc i) ss ≡ start_of i ss + length s
unfolding start_of
start_next i [] s is = let below = get_elem?-some-lt [] i s is in absurd (omega arith)
start_next zero (t ∷ ss) s is =
    ap (λ u. length u + start_of 0 ss) (some-injective t s is) ∙ omega arith
start_next (suc i) (t ∷ ss) s is = let e = start_next i ss s is in omega arith

start_end : (ss : List Str) → start_of (length ss) ss ≡ length (concat ss)
unfolding start_of concat
start_end [] = refl
start_end (s ∷ ss) = rw (length-append s (concat ss), start_end ss) refl

take_front : (s rest : Str) → take (length s) (s ++ rest) ≡ s
take_front [] rest = refl
take_front (c ∷ s) rest = ap (λ t. c ∷ t) (take_front s rest)

drop_front : (s rest : Str) (n : ℕ) → drop (length s + n) (s ++ rest) ≡ drop n rest
drop_front [] rest n = ap (λ m. drop m rest) (omega arith)
drop_front (c ∷ s) rest n =
    ap (λ m. drop m (c ∷ (s ++ rest))) (carried (length s) n) ∙ drop_front s rest n
  where
    carried : (a b : ℕ) → suc a + b ≡ suc (a + b)
    carried a b = omega arith

slice :
    (i : ℕ) (ss : List Str) (s : Str)
    → get_elem? ss i ≡ some s
    → take (length s) (drop (start_of i ss) (concat ss)) ≡ s
unfolding start_of concat
slice i [] s is = let below = get_elem?-some-lt [] i s is in absurd (omega arith)
slice zero (t ∷ ss) s is = rw (sym (some-injective t s is)) (take_front t (concat ss))
slice (suc i) (t ∷ ss) s is = rw (drop_front t (concat ss) (start_of i ss)) (slice i ss s is)

c_string_lem : (s : Str) → HasNoNul s → c_string s ≡ s
unfolding c_string HasNoNul
c_string_lem [] clean = refl
c_string_lem (c ∷ s) clean = rw (clean.0, c_string_lem s clean.1) refl

ends_within :
    (i : ℕ) (ss : List Str) (s : Str)
    → get_elem? ss i ≡ some s
    → start_of i ss + length s ≤ length (concat ss)
unfolding start_of concat
ends_within i [] s is = let below = get_elem?-some-lt [] i s is in absurd (omega arith)
ends_within zero (t ∷ ss) s is =
    let e = ap length (some-injective t s is) in let l = length-append t (concat ss) in omega arith
ends_within (suc i) (t ∷ ss) s is =
    let e = ends_within i ss s is in let l = length-append t (concat ss) in omega arith

ends_last :
    (i : ℕ) (ss : List Str) (s : Str)
    → get_elem? ss i ≡ some s
    → suc i ≡ length ss
    → start_of i ss + length s ≡ length (concat ss)
ends_last i ss s is last = sym (start_next i ss s is) ∙ ap (λ n. start_of n ss) last ∙ start_end ss

module _ (i : ℕ) (ss : List Str) (s : Str) (is : get_elem? ss i ≡ some s)
    (small : stable_length ss < u32_mod) where
  i_below : i < length ss
  i_below = get_elem?-some-lt ss i s is

  last_length : suc i ≡ length ss → string_length (table_of ss) i (start_of i ss) ≡ ok (length s)
  unfolding string_length stable_length
  last_length last = let e = ends_last i ss s is last in ground arith

  inner_length : suc i < length ss → string_length (table_of ss) i (start_of i ss) ≡ ok (length s)
  unfolding string_length stable_length
  inner_length inner =
      let w = ends_within i ss s is in
      let next = start_next i ss s is in
      rw (element_lem (offsets_of 0 ss) (i + 1) _ (offset_at (i + 1) 0 ss (omega arith)))
        (ground arith)

  string_length_lem : string_length (table_of ss) i (start_of i ss) ≡ ok (length s)
  string_length_lem = elim (Bool-cases (ltb (suc i) (length ss))) [
    | inl y ↦ inner_length (ground arith)
    | inr n ↦ let b = i_below in last_length (ground arith)
  ]

  bytes_at_lem : bytes_at (concat ss) (start_of i ss) (length s) ≡ ok s
  unfolding bytes_at
  bytes_at_lem = let w = ends_within i ss s is in rw (slice i ss s is) (ground arith)

  pub string_table_load_str-table_of : HasNoNul s → string_table_load_str (table_of ss) i ≡ ok s
  unfolding string_table_load_str
  string_table_load_str-table_of clean =
      rw
        (
          not_beyond,
          element_lem (offsets_of 0 ss) i _ (offset_at i 0 ss i_below),
          zero-add (start_of i ss),
          string_length_lem,
          bytes_at_lem,
          c_string_lem s clean,
        )
        refl
    where
      not_beyond : leb (length ss) i ≡ false
      not_beyond = let b = i_below in ground arith
