-- ===== src/Dict/Delete.antt =====
-- core/dict.c: `dict_delete` and `dict_delete_by_symbol`, which unlink the first node that fits.
use atomix_js.Prelude.{
  ℕ, zero, suc, Bool, true, false, Option, none, some, [], ◌∷◌, Str, ◌==◌, if◌then◌else◌,
}
use atomix_js.Prelude.Result.{Result, ok, panic, fault}
use atomix_js.Dict.{JsProperty, Chain, JsDict, hash_string, bucket, set_bucket, key_is}

-- The position of the node that the outer loop stops at.
unfoldable pub find_position : (JsProperty → Bool) → Chain → Option ℕ
find_position fits [] = none
find_position fits (e ∷ c) =
    let rest = find_position fits c in
    if fits e then some 0 else elim rest [ none ↦ none | some i ↦ some (suc i) ]

-- `while (prev->next != entry) prev = prev->next; prev->next = entry->next;` where `prev` is the
-- first node of the chain given and `entry` stands `gap` nodes behind it. With a gap of 0 `prev` is
-- `entry` itself, which is not behind it: the walk runs past the end and reads through NULL.
unfoldable pub unlink_behind : ℕ → Chain → Result Chain
unlink_behind zero c = fault
unlink_behind (suc gap) [] = fault
unlink_behind (suc zero) (prev ∷ []) = fault
unlink_behind (suc zero) (prev ∷ entry ∷ rest) = ok (prev ∷ rest)
unlink_behind (suc (suc gap)) (prev ∷ rest) = elim (unlink_behind (suc gap) rest) [
  | ok c ↦ ok (prev ∷ c)
  | panic m ↦ panic m
  | fault ↦ fault
]

-- The node at a position is unlinked: the head directly, any other by a walk that begins at the
-- SECOND node.
unfoldable pub unlink_at : ℕ → Chain → Result Chain
unfolding unlink_behind
unlink_at zero [] = fault
unlink_at zero (e ∷ c) = ok c
unlink_at (suc i) [] = fault
unlink_at (suc i) (e ∷ c) = elim (unlink_behind i c) [
  | ok c' ↦ ok (e ∷ c')
  | panic m ↦ panic m
  | fault ↦ fault
]

unfoldable pub delete_first : (JsProperty → Bool) → JsDict → ℕ → Result (Bool × JsDict)
delete_first fits d index = elim (find_position fits (bucket d index)) [
  | none ↦ ok (false, d)
  | some i ↦ elim (unlink_at i (bucket d index)) [
    | ok c ↦ ok (true, set_bucket d index c)
    | panic m ↦ panic m
    | fault ↦ fault
  ]
]

unfoldable pub dict_delete : JsDict → Str → Result (Bool × JsDict)
dict_delete d key = delete_first (λ e. key_is e.key key) d (hash_string key d.bucket_count)

unfoldable pub dict_delete_by_symbol : JsDict → ℕ → Result (Bool × JsDict)
dict_delete_by_symbol d s = delete_first (λ e. e.symbol == s) d 0
