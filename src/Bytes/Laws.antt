-- ===== src/Bytes/Laws.antt =====
-- Laws of `memcpy`, and of ints stored in a buffer.
use test_fs.Prelude.{
  ℕ, ◌*◌, ◌/◌, ◌%◌, zero, suc, ◌+◌, ◌-◌, ◌^◌, ◌≤◌, ◌<◌, min, ◌≡◌, refl, sym, ◌∙◌, ap, ◌⊎◌, inl, inr,
  List, ◌++◌, arith, length, get_or, take, drop, length-append, length-take, length-drop,
  length-replicate, get_or-take, get_or-drop, get_or-append_left, get_or-append_right, list_ext,
}
use test_fs.Bytes.{Byte, CInt, slice, blit, encode_int, zero_bytes, get_int, set_int}

pub length-zero_bytes : (n : ℕ) → length (zero_bytes n) ≡ n
unfolding zero_bytes
length-zero_bytes n = length-replicate n 0

pub get_or-zero_bytes : (n i : ℕ) → get_or (zero_bytes n) i 0 ≡ 0
unfolding zero_bytes
get_or-zero_bytes zero i = refl
get_or-zero_bytes (suc n) zero = refl
get_or-zero_bytes (suc n) (suc i) = get_or-zero_bytes n i

pub length-slice :
    (src : List Byte) (off n : ℕ) → length (slice src off n) ≡ min n (length src - off)
unfolding slice
length-slice src off n = rw (length-take n (drop off src), length-drop off src)

pub get_or-slice :
    (src : List Byte) (off n i : ℕ) → i < n → get_or (slice src off n) i 0 ≡ get_or src (off + i) 0
unfolding slice
get_or-slice src off n i h = get_or-take n i (drop off src) 0 h ∙ get_or-drop off i src 0

pub length-blit :
    (dst : List Byte) (off : ℕ) (src : List Byte)
    → off + length src ≤ length dst
    → length (blit dst off src) ≡ length dst
unfolding blit
length-blit dst off src h = omega (
  arith,
  length-append (take off dst) (src ++ drop (off + length src) dst),
  length-append src (drop (off + length src) dst),
  length-take off dst,
  length-drop (off + length src) dst,
)

module _ (dst : List Byte) (off : ℕ) (src : List Byte) (h : off + length src ≤ length dst) where
  length_front : length (take off dst) ≡ off
  length_front = omega (arith, length-take off dst)

  pub get_or-blit_before : (i : ℕ) → i < off → get_or (blit dst off src) i 0 ≡ get_or dst i 0
  unfolding blit
  get_or-blit_before i l =
      get_or-append_left (take off dst) (src ++ drop (off + length src) dst) i 0
        (omega (arith, length_front))
      ∙ get_or-take off i dst 0 l

  past_front :
      (i : ℕ)
      → off ≤ i
      → get_or (blit dst off src) i 0 ≡ get_or (src ++ drop (off + length src) dst) (i - off) 0
  unfolding blit
  past_front i l =
      get_or-append_right (take off dst) (src ++ drop (off + length src) dst) i 0
        (omega (arith, length_front))
      ∙ ap (λ k. get_or (src ++ drop (off + length src) dst) (i - k) 0) length_front

  pub get_or-blit_inside :
      (i : ℕ) → i < length src → get_or (blit dst off src) (off + i) 0 ≡ get_or src i 0
  get_or-blit_inside i l =
      past_front (off + i) (omega arith)
      ∙ ap (λ k. get_or (src ++ drop (off + length src) dst) k 0) (back off i)
      ∙ get_or-append_left src (drop (off + length src) dst) i 0 l
    where
      back : (a b : ℕ) → a + b - a ≡ b
      back a b = omega arith

  pub get_or-blit_after :
      (i : ℕ) → off + length src ≤ i → get_or (blit dst off src) i 0 ≡ get_or dst i 0
  get_or-blit_after i l =
      past_front i (omega arith)
      ∙ get_or-append_right src (drop (off + length src) dst) (i - off) 0 (omega arith)
      ∙ get_or-drop (off + length src) (i - off - length src) dst 0
      ∙ ap (λ k. get_or dst k 0) (omega arith)

  -- What was copied in is read back.
  pub slice-blit : (n : ℕ) → n ≡ length src → slice (blit dst off src) off n ≡ src
  slice-blit n e = list_ext (slice (blit dst off src) off n) src 0 same (λ i l.
      get_or-slice (blit dst off src) off n i (omega (arith, same))
      ∙ get_or-blit_inside i (omega (arith, same)))
    where
      same : length (slice (blit dst off src) off n) ≡ length src
      same = omega (arith, length-slice (blit dst off src) off n, length-blit dst off src h)

  -- A copy leaves what lies beside it.
  pub slice-blit_other :
      (o n : ℕ)
      → (o + n ≤ off) ⊎ (off + length src ≤ o)
      → slice (blit dst off src) o n ≡ slice dst o n
  slice-blit_other o n apart =
      list_ext (slice (blit dst off src) o n) (slice dst o n) 0
        (omega (
          arith,
          length-slice (blit dst off src) o n,
          length-slice dst o n,
          length-blit dst off src h,
        ))
        (λ i l. at i (omega (arith, length-slice (blit dst off src) o n)) apart)
    where
      at :
          (i : ℕ)
          → i < n
          → (o + n ≤ off) ⊎ (off + length src ≤ o)
          → get_or (slice (blit dst off src) o n) i 0 ≡ get_or (slice dst o n) i 0
      at i l (inl before) =
          get_or-slice (blit dst off src) o n i l
          ∙ get_or-blit_before (o + i) (omega arith)
          ∙ sym (get_or-slice dst o n i l)
      at i l (inr after) =
          get_or-slice (blit dst off src) o n i l
          ∙ get_or-blit_after (o + i) (omega arith)
          ∙ sym (get_or-slice dst o n i l)

pub get_int-set_int_self :
    (b : List Byte) (off : ℕ) (x : CInt)
    → off + 4 ≤ length b
    → x < 2 ^ 32
    → get_int (set_int b off x) off ≡ x
unfolding get_int set_int
get_int-set_int_self b off x h small = omega (
  arith,
  get_or-blit_inside b off (encode_int x) h 0 (omega arith),
  ap (λ k. get_or (blit b off (encode_int x)) k 0) (plus_zero off),
  get_or-blit_inside b off (encode_int x) h 1 (omega arith),
  get_or-blit_inside b off (encode_int x) h 2 (omega arith),
  get_or-blit_inside b off (encode_int x) h 3 (omega arith),
)
  where
    plus_zero : (n : ℕ) → n + 0 ≡ n
    plus_zero n = omega arith

pub get_int-set_int_other :
    (b : List Byte) (off o : ℕ) (x : CInt)
    → off + 4 ≤ length b
    → (o + 4 ≤ off) ⊎ (off + 4 ≤ o)
    → get_int (set_int b off x) o ≡ get_int b o
unfolding get_int set_int
get_int-set_int_other b off o x h (inl before) = rw (
  get_or-blit_before b off (encode_int x) h o (omega arith),
  get_or-blit_before b off (encode_int x) h (o + 1) (omega arith),
  get_or-blit_before b off (encode_int x) h (o + 2) (omega arith),
  get_or-blit_before b off (encode_int x) h (o + 3) (omega arith),
)
get_int-set_int_other b off o x h (inr after) = rw (
  get_or-blit_after b off (encode_int x) h o (omega arith),
  get_or-blit_after b off (encode_int x) h (o + 1) (omega arith),
  get_or-blit_after b off (encode_int x) h (o + 2) (omega arith),
  get_or-blit_after b off (encode_int x) h (o + 3) (omega arith),
)

pub length-set_int :
    (b : List Byte) (off : ℕ) (x : CInt) → off + 4 ≤ length b → length (set_int b off x) ≡ length b
unfolding set_int
length-set_int b off x h = length-blit b off (encode_int x) h

-- The four bytes that `encode_int` takes from an int give it back.
pub int_digits :
    (x : ℕ)
    → x < 2 ^ 32
    → x % 256 + 256 * (x / 256 % 256) + 65536 * (x / 65536 % 256) + 16777216 * (x / 16777216 % 256)
      ≡ x
int_digits x h = omega arith
