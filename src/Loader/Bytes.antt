-- ===== src/Loader/Bytes.antt =====
-- The READ_ macros of core/loader.c. The blocks of a number share no bit, so `|` is a sum. A read
-- outside the buffer is a fault.
use atomix_js.Prelude.{ℕ, zero, suc, ◌+◌, ◌*◌, ◌%◌, ◌&&◌, ◌==◌, Bool, List, [], ◌∷◌}
use atomix_js.Prelude.Result.{Result, ok, ◌>>=◌}
use atomix_js.Format.{element}

abbrev pub Buffer : Type 0
Buffer = List ℕ

-- `buff[position]`
unfoldable pub byte_at : Buffer → ℕ → Result ℕ
byte_at buff position = do b ← element buff position; ok (b % 256)

-- A number of `n` bytes, the lowest one first.
unfoldable pub read_uint : ℕ → Buffer → ℕ → Result ℕ
read_uint zero buff position = ok 0
read_uint (suc n) buff position = do
  b ← byte_at buff position
  rest ← read_uint n buff (position + 1)
  ok (b + 256 * rest)

-- `count` numbers of four bytes, as `memcpy` into an array of `uint32_t` leaves them on a processor
-- that stores the lowest byte first.
unfoldable pub read_offsets : ℕ → Buffer → ℕ → Result (List ℕ)
read_offsets zero buff position = ok []
read_offsets (suc n) buff position = do
  offset ← read_uint 4 buff position
  rest ← read_offsets n buff (position + 4)
  ok (offset ∷ rest)

-- The test of the four magic bytes, the last of which is `last`.
unfoldable pub has_magic : ℕ → Buffer → ℕ → Result Bool
has_magic last buff position = do
  a ← byte_at buff position
  b ← byte_at buff (position + 1)
  c ← byte_at buff (position + 2)
  d ← byte_at buff (position + 3)
  ok (a == 0x2E && b == 0x41 && c == 0x78 && d == last)
