-- ===== src/Bytes.antt =====
-- Memory as the C code of testFS sees it: a buffer is a list of bytes, and an `int` is its bit
-- pattern below 2 ^ 32, stored in little-endian order (the code casts `char *` to `int *` on x86).
-- A negative number is a pattern of at least 2 ^ 31, so `-ENOSPC` is `neg 28`.
-- Also the macros of include/common.h, and `memcpy`.
pub mod Laws
use test_fs.Prelude.{
  ℕ, ◌+◌, ◌-◌, ◌*◌, ◌/◌, ◌%◌, ◌^◌, Bool, List, [], ◌∷◌, ◌++◌, leb, ltb, ◌&&◌, not, if◌then◌else◌,
  ◌==◌, length, get_or, take, drop, replicate,
}

abbrev pub Byte : Type 0
Byte = ℕ

-- An `int` as its pattern.
abbrev pub CInt : Type 0
CInt = ℕ

-- The pattern of `-n`, for a numeral `n` from 1 on.
abbrev pub neg : ℕ → CInt
neg n = 2 ^ 32 - n

-- `x < 0`
abbrev pub is_neg : CInt → Bool
is_neg x = leb (2 ^ 31) x

-- `x <= y` on ints
abbrev pub le_int : CInt → CInt → Bool
le_int x y = leb ((x + 2 ^ 31) % 2 ^ 32) ((y + 2 ^ 31) % 2 ^ 32)

-- `x > 0`
abbrev pub is_pos : CInt → Bool
is_pos x = not (x == 0) && not (is_neg x)

-- `x - y` on ints
abbrev pub sub_int : CInt → CInt → CInt
sub_int x y = (x + 2 ^ 32 - y) % 2 ^ 32

abbrev pub div_round_up : ℕ → ℕ → ℕ
div_round_up a b = (a + b - 1) / b

abbrev pub round_up : ℕ → ℕ → ℕ
round_up a b = div_round_up a b * b

-- MAX of include/common.h
abbrev pub max_int : CInt → CInt → CInt
max_int a b = if le_int b a then a else b

-- The `n` bytes of `src` from `off` on.
unfoldable pub slice : List Byte → ℕ → ℕ → List Byte
slice src off n = take n (drop off src)

-- memcpy(dst + off, src, length src)
unfoldable pub blit : List Byte → ℕ → List Byte → List Byte
blit dst off src = take off dst ++ (src ++ drop (off + length src) dst)

-- memset(b, 0, n)
unfoldable pub zero_bytes : ℕ → List Byte
zero_bytes n = replicate n 0

-- The four bytes of an int.
abbrev pub encode_int : CInt → List Byte
encode_int x = x % 256 ∷ x / 256 % 256 ∷ x / 65536 % 256 ∷ x / 16777216 % 256 ∷ []

-- The int at byte offset `off`.
unfoldable pub get_int : List Byte → ℕ → CInt
get_int b off =
    get_or b off 0
    + 256 * get_or b (off + 1) 0
    + 65536 * get_or b (off + 2) 0
    + 16777216 * get_or b (off + 3) 0

-- Store an int at byte offset `off`.
unfoldable pub set_int : List Byte → ℕ → CInt → List Byte
unfolding blit
set_int b off x = blit b off (encode_int x)
