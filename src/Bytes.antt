-- ===== src/Bytes.antt =====
-- Byte slices of Go as lists of numbers below 256, and encoding/binary over them.
use wa_calls.Base.{
  ℕ, ◌+◌, ◌-◌, ◌*◌, ◌/◌, ◌%◌, ◌≤◌, ◌<◌, ◌≡◌, List, [], ◌∷◌, ◌++◌, arith, get_or, take, drop,
  replicate, bit_xor,
}

abbrev pub IsByte : ℕ → Type 0
IsByte b = b < 256

abbrev pub IsU16 : ℕ → Type 0
IsU16 n = n < 65536

abbrev pub IsU32 : ℕ → Type 0
IsU32 n = n < 4294967296

-- `byte(n)`, `uint16(n)`, `uint32(n)` and `uint64(n)`.
abbrev pub u8 : ℕ → ℕ
u8 n = n % 256

abbrev pub u16 : ℕ → ℕ
u16 n = n % 65536

abbrev pub u32 : ℕ → ℕ
u32 n = n % 4294967296

-- Subtraction of uint32.
abbrev pub sub_u32 : ℕ → ℕ → ℕ
sub_u32 a b = u32 (a + 4294967296 - b)

pub sub_u32-exact : {a b : ℕ} → b ≤ a → IsU32 a → sub_u32 a b ≡ a - b
sub_u32-exact le h = omega arith

abbrev pub u64 : ℕ → ℕ
u64 n = n % 18446744073709551616

-- `b[i]`, where the code has checked that i is in range.
abbrev pub byte_at : List ℕ → ℕ → ℕ
byte_at b i = get_or b i 0

-- binary.BigEndian, and binary.LittleEndian at the end.
abbrev pub put_u16 : ℕ → List ℕ
put_u16 n = (n / 256 % 256) ∷ (n % 256) ∷ []

abbrev pub put_u32 : ℕ → List ℕ
put_u32 n = (n / 16777216 % 256) ∷ (n / 65536 % 256) ∷ (n / 256 % 256) ∷ (n % 256) ∷ []

abbrev pub get_u16 : List ℕ → ℕ
get_u16 b = byte_at b 0 * 256 + byte_at b 1

abbrev pub get_u32 : List ℕ → ℕ
get_u32 b = byte_at b 0 * 16777216 + byte_at b 1 * 65536 + byte_at b 2 * 256 + byte_at b 3

abbrev pub get_u16_le : List ℕ → ℕ
get_u16_le b = byte_at b 0 + byte_at b 1 * 256

abbrev pub get_u32_le : List ℕ → ℕ
get_u32_le b = byte_at b 0 + byte_at b 1 * 256 + byte_at b 2 * 65536 + byte_at b 3 * 16777216

pub get-put_u16 : (n : ℕ) (rest : List ℕ) → IsU16 n → get_u16 (put_u16 n ++ rest) ≡ n
get-put_u16 n rest h = omega arith

pub get-put_u32 : (n : ℕ) (rest : List ℕ) → IsU32 n → get_u32 (put_u32 n ++ rest) ≡ n
get-put_u32 n rest h = omega arith

-- `b[lo:hi]`, where the code has checked the bounds.
abbrev pub slice : List ℕ → ℕ → ℕ → List ℕ
slice b lo hi = take (hi - lo) (drop lo b)

abbrev pub zeros : ℕ → List ℕ
zeros n = replicate n 0

-- Byte by byte exclusive or, as long as the first.
unfoldable pub xor_bytes : List ℕ → List ℕ → List ℕ
xor_bytes [] ks = []
xor_bytes (x ∷ xs) [] = x ∷ xs
xor_bytes (x ∷ xs) (k ∷ ks) = bit_xor x k ∷ xor_bytes xs ks
