-- ===== src/Words/Bytes.antt =====
-- A `long` as the eight bytes of its little-endian representation.
use aurora_mvee.Base.{ℕ, zero, suc, ◌+◌, ◌*◌, ◌/◌, ◌%◌, ◌^◌, ◌≡◌, ◌<◌, arith}

unfoldable pub byte : ℕ → ℕ → ℕ
byte w i = w / 256 ^ i % 256

-- The word whose bytes are the first eight of `f`.
unfoldable pub word : (ℕ → ℕ) → ℕ
word f =
    f 0
    + 256 * (f 1 + 256 * (f 2 + 256 * (f 3 + 256 * (f 4 + 256 * (f 5 + 256 * (f 6 + 256 * f 7))))))

pub byte-lt : (w i : ℕ) → byte w i < 256
unfolding byte
byte-lt w i = omega arith

-- Taking a word apart gives the bytes that it was made of.
pub byte-word : (f : ℕ → ℕ) (i : ℕ) → ((j : ℕ) → f j < 256) → i < 8 → byte (word f) i ≡ f i
unfolding byte word
byte-word f zero h lt = omega (arith, h 0)
byte-word f (suc zero) h lt = omega (arith, h 0, h 1)
byte-word f (suc (suc zero)) h lt = omega (arith, h 0, h 1, h 2)
byte-word f (suc (suc (suc zero))) h lt = omega (arith, h 0, h 1, h 2, h 3)
byte-word f (suc (suc (suc (suc zero)))) h lt = omega (arith, h 0, h 1, h 2, h 3, h 4)
byte-word f (suc (suc (suc (suc (suc zero))))) h lt = omega (arith, h 0, h 1, h 2, h 3, h 4, h 5)
byte-word f (suc (suc (suc (suc (suc (suc zero)))))) h lt =
    omega (arith, h 0, h 1, h 2, h 3, h 4, h 5, h 6)
byte-word f (suc (suc (suc (suc (suc (suc (suc zero))))))) h lt =
    omega (arith, h 0, h 1, h 2, h 3, h 4, h 5, h 6, h 7)
byte-word f (suc (suc (suc (suc (suc (suc (suc (suc i)))))))) h lt = absurd (omega arith)
