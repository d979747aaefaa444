-- ===== src/Loader/Trip/Holds.antt =====
-- A buffer that holds given bytes at a position, and what the READ_ macros find there.
use atomix_js.Prelude.{
  ℕ, zero, suc, ◌+◌, ◌*◌, ◌/◌, ◌%◌, ◌≡◌, ◌<◌, refl, ap, [], ◌∷◌, ◌++◌, length, arith, some,
  get_elem?,
}
use atomix_js.Prelude.Result.{ok}
use mathlib.Core.Path.{subst}
use atomix_js.Format.Element.{element_lem}
use atomix_js.Loader.Bytes.{Buffer, byte_at, read_uint}
use atomix_js.Loader.Write.{write_uint}

-- The bytes stand in the buffer from the position on.
pub data Holds (buff : Buffer) : ℕ → Buffer → Type 0 where
  nothing : {position : ℕ} → Holds buff position []
  byte :
      {position b : ℕ} {bytes : Buffer}
      → get_elem? buff position ≡ some b
      → Holds buff (position + 1) bytes
      → Holds buff position (b ∷ bytes)

module _ {buff : Buffer} where
  pub Holds-front :
      (position : ℕ) (xs ys : Buffer) → Holds buff position (xs ++ ys) → Holds buff position xs
  Holds-front position [] ys held = nothing
  Holds-front position (x ∷ xs) ys (byte e held) = byte e (Holds-front (position + 1) xs ys held)

  pub Holds-back :
      (position : ℕ) (xs ys : Buffer)
      → Holds buff position (xs ++ ys)
      → Holds buff (position + length xs) ys
  Holds-back position [] ys held = subst (λ p. Holds buff p ys) (omega arith) held
  Holds-back position (x ∷ xs) ys (byte e held) =
      subst (λ p. Holds buff p ys) (omega arith) (Holds-back (position + 1) xs ys held)

  pub byte_at-Holds :
      (position b : ℕ) (bytes : Buffer)
      → Holds buff position (b ∷ bytes)
      → byte_at buff position ≡ ok (b % 256)
  unfolding byte_at
  byte_at-Holds position b bytes (byte e held) = rw (element_lem buff position b e) refl

  pub Holds-tail :
      (position b : ℕ) (bytes : Buffer)
      → Holds buff position (b ∷ bytes)
      → Holds buff (position + 1) bytes
  Holds-tail position b bytes (byte e held) = held

-- The numbers of `n` bytes are below this bound.
abbrev pub byte_bound : ℕ → ℕ
byte_bound zero = 1
byte_bound (suc n) = 256 * byte_bound n

pub length-write_uint : (n x : ℕ) → length (write_uint n x) ≡ n
unfolding write_uint
length-write_uint zero x = refl
length-write_uint (suc n) x = ap suc (length-write_uint n (x / 256))

pub read_uint-write_uint :
    (n x : ℕ) (buff : Buffer) (position : ℕ)
    → x < byte_bound n
    → Holds buff position (write_uint n x)
    → read_uint n buff position ≡ ok x
unfolding read_uint write_uint
read_uint-write_uint zero x buff position fits held = ap ok (omega arith)
read_uint-write_uint (suc n) x buff position fits held =
    rw
      (
        byte_at-Holds position (x % 256) (write_uint n (x / 256)) held,
        read_uint-write_uint n (x / 256) buff (position + 1) (omega arith)
            (Holds-tail position (x % 256) (write_uint n (x / 256)) held),
      )
      (ap ok (omega arith))

module _ (buff : Buffer) where
  -- Behind a number of `n` bytes.
  pub Holds-next :
      (n x position : ℕ) (rest : Buffer)
      → Holds buff position (write_uint n x ++ rest)
      → Holds buff (position + n) rest
  Holds-next n x position rest held =
      subst (λ m. Holds buff (position + m) rest) (length-write_uint n x)
        (Holds-back position (write_uint n x) rest held)

  pub read_uint-front :
      (n x position : ℕ) (rest : Buffer)
      → x < byte_bound n
      → Holds buff position (write_uint n x ++ rest)
      → read_uint n buff position ≡ ok x
  read_uint-front n x position rest fits held =
      read_uint-write_uint n x buff position fits (Holds-front position (write_uint n x) rest held)

Holds-shift :
    (b : ℕ) (buff : Buffer) (position : ℕ) (bytes : Buffer)
    → Holds buff position bytes
    → Holds (b ∷ buff) (suc position) bytes
Holds-shift b buff position [] held = nothing
Holds-shift b buff position (c ∷ bytes) (byte is held) = byte is (
    subst (λ p. Holds (b ∷ buff) p bytes) (carried position)
      (Holds-shift b buff (position + 1) bytes held))
  where
    carried : (p : ℕ) → suc (p + 1) ≡ suc p + 1
    carried p = omega arith

-- A buffer holds itself.
pub Holds-self : (bytes : Buffer) → Holds bytes 0 bytes
Holds-self [] = nothing
Holds-self (b ∷ bytes) = byte refl (Holds-shift b bytes 0 bytes (Holds-self bytes))
