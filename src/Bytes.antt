-- ===== src/Bytes.antt =====
-- Byte strings and the fixed-width integers read from them: `u16::from_be_bytes`,
-- `u32::from_be_bytes`, wrapping 32-bit arithmetic, and shifts and masks of one byte.
use tapgres.Prelude.{
  ℕ, ◌+◌, ◌-◌, ◌*◌, ◌/◌, ◌%◌, ◌^◌, ◌<◌, Bool, List, [], ◌∷◌, ◌++◌, ◌==◌, take, drop, zero, suc,
}

-- A `Vec<u8>` or `&[u8]`: its bytes as numbers.
abbrev pub Bytes : Type 0
Bytes = List ℕ

abbrev pub IsBytes : Bytes → Type 0
IsBytes [] = Unit
IsBytes (x ∷ b) = (x < 256) × IsBytes b

-- u16::from_be_bytes
abbrev pub be16 : ℕ → ℕ → ℕ
be16 a b = a * 256 + b

-- u32::from_be_bytes
abbrev pub be32 : ℕ → ℕ → ℕ → ℕ → ℕ
be32 a b c d = ((a * 256 + b) * 256 + c) * 256 + d

-- `x >> 4` and `x & 0x0f`
abbrev pub high_nibble : ℕ → ℕ
high_nibble x = x / 16

abbrev pub low_nibble : ℕ → ℕ
low_nibble x = x % 16

-- `x & 2^k != 0`
abbrev pub test_bit : ℕ → ℕ → Bool
test_bit x k = x / 2 ^ k % 2 == 1

abbrev pub u32_mod : ℕ
u32_mod = 2 ^ 32

-- u32::wrapping_add and u32::wrapping_sub
abbrev pub wrapping_add : ℕ → ℕ → ℕ
wrapping_add a b = (a + b) % u32_mod

abbrev pub wrapping_sub : ℕ → ℕ → ℕ
wrapping_sub a b = (a + u32_mod - b) % u32_mod

pub IsBytes-append : (b c : Bytes) → IsBytes b → IsBytes c → IsBytes (b ++ c)
IsBytes-append [] c p q = q
IsBytes-append (x ∷ b) c p q = (p.0, IsBytes-append b c p.1 q)

pub IsBytes-take : (n : ℕ) (b : Bytes) → IsBytes b → IsBytes (take n b)
IsBytes-take zero b p = tt
IsBytes-take (suc n) [] p = tt
IsBytes-take (suc n) (x ∷ b) p = (p.0, IsBytes-take n b p.1)

pub IsBytes-drop : (n : ℕ) (b : Bytes) → IsBytes b → IsBytes (drop n b)
IsBytes-drop zero b p = p
IsBytes-drop (suc n) [] p = tt
IsBytes-drop (suc n) (x ∷ b) p = IsBytes-drop n b p.1
