-- ===== src/Compiler/Sections/Strings.antt =====
-- The string table of atomixc: registering a string keeps it well formed.
use atomix_js.Prelude.{
  ℕ, zero, suc, ◌+◌, ◌-◌, ◌*◌, ◌≡◌, ◌≢◌, ◌⊎◌, refl, ap, ◌∙◌, sym, List, [], ◌∷◌, ◌++◌, none, some,
  Str, str_eq, str_eq_sound, str_eq_complete, length, length-append, get_elem?, arith, Bool-cases,
  Option-cases, inl, inr, false, ◌==◌,
}
use atomix_js.Compiler.Sections.{
  STableSection, index_of, next_offset, append_string, register_string, new_stable_section,
}
use mathlib.Core.Path.{subst}
use mathlib.Core.List.{append-nil}

-- The bytes of the characters of strings.
unfoldable pub strings_length : List Str → ℕ
strings_length [] = 0
strings_length (s ∷ strings) = length s + strings_length strings

-- The sums of the lengths of the strings before each one.
unfoldable pub offsets_from : ℕ → List Str → List ℕ
offsets_from offset [] = []
offsets_from offset (s ∷ strings) = offset ∷ offsets_from (offset + length s) strings

pub record IsStable (t : STableSection) : Type 0 where
  pub counted : t.count ≡ length t.strings
  pub placed : t.offsets ≡ offsets_from 0 t.strings
  pub sized : t.length ≡ 8 + 4 * length t.strings + strings_length t.strings
  pub distinct :
      (i j : ℕ) (s : Str) → get_elem? t.strings i ≡ some s → get_elem? t.strings j ≡ some s → i ≡ j

strings_length-append :
    (xs ys : List Str) → strings_length (xs ++ ys) ≡ strings_length xs + strings_length ys
unfolding strings_length
strings_length-append [] ys = omega arith
strings_length-append (x ∷ xs) ys = omega (arith, strings_length-append xs ys)

offsets_from-append :
    (k : ℕ) (xs : List Str) (x : Str)
    → offsets_from k (xs ++ x ∷ []) ≡ offsets_from k xs ++ (k + strings_length xs) ∷ []
unfolding offsets_from strings_length
offsets_from-append k [] x = ap (λ n. n ∷ []) (omega arith)
offsets_from-append k (y ∷ xs) x =
    rw (offsets_from-append (k + length y) xs x)
      (ap (λ n. k ∷ (offsets_from (k + length y) xs ++ n ∷ [])) (omega arith))

-- The last string ends where the next one begins.
last_ends :
    (k : ℕ) (x : Str) (xs : List Str) (n : ℕ)
    → n ≡ length xs
    → (o : ℕ) × (s : Str) × (get_elem? (offsets_from k (x ∷ xs)) n ≡ some o)
      × (get_elem? (x ∷ xs) n ≡ some s)
      × (o + length s ≡ k + strings_length (x ∷ xs))
unfolding offsets_from strings_length
last_ends k x [] zero e = (k, x, refl, refl, omega arith)
last_ends k x [] (suc n) e = absurd (omega arith)
last_ends k x (y ∷ xs) zero e = absurd (omega arith)
last_ends k x (y ∷ xs) (suc n) e =
    let r = last_ends (k + length x) y xs n (omega arith) in
    (r.0, r.1, r.2, r.3, omega (arith, r.4))

next_offset_behind :
    (t : STableSection) (o : ℕ) (s : Str)
    → (t.count == 0) ≡ false
    → get_elem? t.offsets (t.count - 1) ≡ some o
    → get_elem? t.strings (t.count - 1) ≡ some s
    → next_offset t ≡ o + length s
unfolding next_offset
next_offset_behind t o s a b c = rw (a, b, c, next_offset) refl

next_offset_at :
    (strings : List Str) (t : STableSection)
    → t.strings ≡ strings
    → IsStable t
    → next_offset t ≡ strings_length strings
unfolding next_offset strings_length
next_offset_at [] t e v = rw (v.counted, e, next_offset) refl
next_offset_at (x ∷ xs) t e v =
    let n : t.count ≡ length (x ∷ xs) = v.counted ∙ ap length e in
    let r = last_ends 0 x xs (t.count - 1) (omega arith) in
    next_offset_behind t r.0 r.1 (ground arith) (rw (v.placed, e) r.2) (rw e r.3)
    ∙ omega (arith, r.4)

index_of-absent :
    (i : ℕ) (x : Str) (strings : List Str)
    → index_of i x strings ≡ none
    → (j : ℕ) → get_elem? strings j ≢ some x
unfolding index_of
index_of-absent i x [] e j at = cc at
index_of-absent i x (s ∷ strings) e j at = elim (Bool-cases (str_eq s x)) [
  | inl same ↦ absurd_found i (rw same at e)
  | inr other ↦ elsewhere j at (index_of-absent (i + 1) x strings (rw other at e)) other
]
  where
    absurd_found : (i : ℕ) → some i ≡ none → ⊥
    absurd_found i e = cc

    elsewhere :
        (j : ℕ)
        → get_elem? (s ∷ strings) j ≡ some x
        → ((j : ℕ) → get_elem? strings j ≢ some x)
        → str_eq s x ≡ false
        → ⊥
    elsewhere zero at rest other = let same : s ≡ x = cc in let t = str_eq_complete s x same in cc
    elsewhere (suc j) at rest other = rest j at

index_of-found :
    (i idx : ℕ) (x : Str) (strings : List Str)
    → index_of i x strings ≡ some idx
    → (k : ℕ) × (idx ≡ i + k) × (get_elem? strings k ≡ some x)
unfolding index_of
index_of-found i idx x [] e = absurd (cc)
index_of-found i idx x (s ∷ strings) e = elim (Bool-cases (str_eq s x)) [
  | inl same ↦ (0, here (rw same at e), ap some (str_eq_sound s x same))
  | inr other ↦
      let r = index_of-found (i + 1) idx x strings (rw other at e) in
      (suc r.0, let p = r.1 in omega arith, r.2)
]
  where
    here : some i ≡ some idx → idx ≡ i + 0
    here e = let p : i ≡ idx = cc in omega arith

pub get_elem?-append_left :
    {A : Type 0} (xs ys : List A) (i : ℕ) (a : A)
    → get_elem? xs i ≡ some a
    → get_elem? (xs ++ ys) i ≡ some a
get_elem?-append_left [] ys i a e = absurd (cc)
get_elem?-append_left (x ∷ xs) ys zero a e = e
get_elem?-append_left (x ∷ xs) ys (suc i) a e = get_elem?-append_left xs ys i a e

pub get_elem?-append_here :
    {A : Type 0} (xs ys : List A) (y : A) (n : ℕ)
    → n ≡ length xs
    → get_elem? (xs ++ y ∷ ys) n ≡ some y
get_elem?-append_here [] ys y zero e = refl
get_elem?-append_here [] ys y (suc n) e = absurd (omega arith)
get_elem?-append_here (x ∷ xs) ys y zero e = absurd (omega arith)
get_elem?-append_here (x ∷ xs) ys y (suc n) e = get_elem?-append_here xs ys y n (omega arith)

-- What stands in a list with one more element.
get_elem?-push :
    (xs : List Str) (y s : Str) (i : ℕ)
    → get_elem? (xs ++ y ∷ []) i ≡ some s
    → (get_elem? xs i ≡ some s) ⊎ ((i ≡ length xs) × (y ≡ s))
get_elem?-push [] y s zero e = inr (refl, cc)
get_elem?-push [] y s (suc i) e = absurd (cc)
get_elem?-push (x ∷ xs) y s zero e = inl e
get_elem?-push (x ∷ xs) y s (suc i) e = elim (get_elem?-push xs y s i e) [
  | inl l ↦ inl l
  | inr p ↦ inr (ap suc p.0, p.1)
]

distinct_push :
    (xs : List Str) (y : Str)
    → ((j : ℕ) → get_elem? xs j ≢ some y)
    → ((i j : ℕ) (s : Str) → get_elem? xs i ≡ some s → get_elem? xs j ≡ some s → i ≡ j)
    → (i j : ℕ) (s : Str) → get_elem? (xs ++ y ∷ []) i ≡ some s
    → get_elem? (xs ++ y ∷ []) j ≡ some s
    → i ≡ j
distinct_push xs y new old i j s p q = elim (get_elem?-push xs y s i p) [
  | inl a ↦ elim (get_elem?-push xs y s j q) [
    | inl b ↦ old i j s a b
    | inr b ↦ absurd (new i (a ∙ ap some (sym b.1)))
  ]
  | inr a ↦ elim (get_elem?-push xs y s j q) [
    | inl b ↦ absurd (new j (b ∙ ap some (sym a.1)))
    | inr b ↦ a.0 ∙ sym b.0
  ]
]

-- A string is at the index that it is registered at, behind the strings that were there.
pub record Registered (x : Str) (t t' : STableSection) (idx : ℕ) : Type 0 where
  pub added : List Str
  pub strings_are : t'.strings ≡ t.strings ++ added
  pub at : get_elem? t'.strings idx ≡ some x
  pub valid : IsStable t'

append_string-Registered :
    (x : Str) (t : STableSection)
    → IsStable t
    → ((j : ℕ) → get_elem? t.strings j ≢ some x)
    → Registered x t (append_string x t).0 (append_string x t).1
unfolding append_string
append_string-Registered x t v new = record {
  added = x ∷ [];
  strings_are = refl;
  at = get_elem?-append_here t.strings [] x t.count v.counted;
  valid = record {
    counted = omega (arith, length-append t.strings (x ∷ []), v.counted);
    placed =
        ap (λ o. t.offsets ++ o ∷ []) (next_offset_at t.strings t refl v)
        ∙ ap (λ os. os ++ strings_length t.strings ∷ []) v.placed
        ∙ ap (λ o. offsets_from 0 t.strings ++ o ∷ []) (omega arith)
        ∙ sym (offsets_from-append 0 t.strings x);
    sized =
        unfold strings_length in
        omega (
          arith,
          length-append t.strings (x ∷ []),
          v.sized,
          strings_length-append t.strings (x ∷ []),
        );
    distinct = distinct_push t.strings x new v.distinct;
  };
}

pub register_string-Registered :
    (x : Str) (t : STableSection)
    → IsStable t
    → Registered x t (register_string x t).0 (register_string x t).1
unfolding register_string
register_string-Registered x t v = elim (Option-cases (index_of 0 x t.strings)) [
  | inl e ↦
      rw (e, register_string) (append_string-Registered x t v (index_of-absent 0 x t.strings e))
  | inr (idx, e) ↦
      rw (e, register_string)
        (record {
          added = [];
          strings_are = sym (append-nil t.strings);
          at =
              let r = index_of-found 0 idx x t.strings e in
              subst (λ n. get_elem? t.strings n ≡ some x) (omega (arith, r.1)) r.2;
          valid = v;
        })
]

pub new_stable_section-IsStable : IsStable new_stable_section
unfolding new_stable_section offsets_from strings_length
new_stable_section-IsStable = record {
  counted = refl;
  placed = refl;
  sized = refl;
  distinct = λ i j s p q. absurd (cc p);
}
