-- ===== src/Loader/Trip/Header.antt =====
-- The first bytes of a file: the tests of the magic bytes and of the version, whatever stands there.
use atomix_js.Prelude.{
  ℕ, zero, suc, ◌+◌, ◌*◌, ◌%◌, ◌/◌, ◌≡◌, ◌<◌, refl, ap, Bool, true, false, not, ◌&&◌, ◌==◌, [], ◌∷◌,
  ◌++◌, arith, length, length-append,
}
use native.Mathlib.Nat.{mul_assoc}
use mathlib.Core.Path.{subst}
use atomix_js.Prelude.Result.{ok, invalid_magic, invalid_version}
use atomix_js.Vm.{Vm}
use atomix_js.Vm.Exec.{Host, panicked, panic_if}
use atomix_js.Loader.Bytes.{Buffer, has_magic, read_uint}
use atomix_js.Loader.Files.{check_header}
use atomix_js.Loader.Write.{write_uint, write_hash}
use atomix_js.Loader.Trip.Holds.{
  Holds, byte, byte_at-Holds, byte_bound, length-write_uint, Holds-back, Holds-tail,
}

-- The magic bytes of a file whose last magic byte is `last`.
abbrev pub is_magic : ℕ → ℕ → ℕ → ℕ → ℕ → Bool
is_magic last a b c d = a % 256 == 0x2E && b % 256 == 0x41 && c % 256 == 0x78 && d % 256 == last

module _ (h : Host) (buff : Buffer) (position a b c d : ℕ) (rest : Buffer) where
  pub has_magic_lem :
      (last : ℕ)
      → Holds buff position (a ∷ b ∷ c ∷ d ∷ rest)
      → has_magic last buff position ≡ ok (is_magic last a b c d)
  unfolding has_magic
  has_magic_lem last (byte a_is (byte b_is (byte c_is (byte d_is held)))) =
      rw
        (
          byte_at-Holds position a _ (byte a_is (byte b_is (byte c_is (byte d_is held)))),
          byte_at-Holds (position + 1) b _ (byte b_is (byte c_is (byte d_is held))),
          byte_at-Holds (position + 2) c (d ∷ rest)
              (subst (λ p. Holds buff p (c ∷ d ∷ rest)) (omega arith) (byte c_is (byte d_is held))),
          byte_at-Holds (position + 3) d rest
              (subst (λ p. Holds buff p (d ∷ rest)) (omega arith) (byte d_is held)),
        )
        refl

  pub check_header_magic :
      (last expected : ℕ) (vm : Vm)
      → Holds buff position (a ∷ b ∷ c ∷ d ∷ rest)
      → is_magic last a b c d ≡ false
      → check_header h buff last expected position vm ≡ panicked invalid_magic
  unfolding check_header
  check_header_magic last expected vm held wrong = rw (has_magic_lem last held, wrong) refl

module _ (h : Host) (buff : Buffer) (position a b c d v v' : ℕ) (rest : Buffer) where
  pub check_header_version :
      (last expected : ℕ) (vm : Vm)
      → Holds buff position (a ∷ b ∷ c ∷ d ∷ v ∷ v' ∷ rest)
      → is_magic last a b c d ≡ true
      → check_header h buff last expected position vm
        ≡ panic_if (not (v % 256 + 256 * (v' % 256) == expected)) invalid_version vm
  unfolding check_header read_uint
  check_header_version last expected vm held right =
      rw
        (
          has_magic_lem h buff position a b c d (v ∷ v' ∷ rest) last held,
          right,
          byte_at-Holds (position + 4) v (v' ∷ rest) behind,
          byte_at-Holds (position + 4 + 1) v' rest (Holds-tail (position + 4) v (v' ∷ rest) behind),
        )
        (ap (λ n. panic_if (not (v % 256 + 256 * n == expected)) invalid_version vm) (omega arith))
    where
      behind : Holds buff (position + 4) (v ∷ v' ∷ rest)
      behind = Holds-back position (a ∷ b ∷ c ∷ d ∷ []) (v ∷ v' ∷ rest) held

-- A hash, written as its low and its high half, is read as one number.
eight : ℕ → ℕ
eight zero = 4
eight (suc n) = suc (eight n)

split_lem :
    (n x y : ℕ)
    → x < byte_bound n
    → write_uint (eight n) (x + byte_bound n * y) ≡ write_uint n x ++ write_uint 4 y
unfolding write_uint eight
split_lem zero x y small = ap (write_uint 4) (omega arith)
split_lem (suc n) x y small =
    let e = split_lem n (x / 256) y (omega arith) in
    rw (mul_assoc 256 (byte_bound n) y, low (byte_bound n * y), high (byte_bound n * y), e) refl
  where
    low : (z : ℕ) → (x + 256 * z) % 256 ≡ x % 256
    low z = omega arith

    high : (z : ℕ) → (x + 256 * z) / 256 ≡ x / 256 + z
    high z = omega arith

pub write_hash_lem :
    (low high : ℕ)
    → low < byte_bound 4
    → write_uint 8 (low + byte_bound 4 * high) ≡ write_hash low high
unfolding eight write_hash
write_hash_lem low high small = split_lem 4 low high small

pub length-write_hash : (low high : ℕ) → length (write_hash low high) ≡ 8
unfolding write_hash
length-write_hash low high =
    rw
      (
        length-append (write_uint 4 low) (write_uint 4 high),
        length-write_uint 4 low,
        length-write_uint 4 high,
      )
      refl
