-- ===== src/Bitmap.antt =====
-- include/bitmap.h and src/bitmap.c: an array of bits in bytes. A failed `assert` is `none`, or
-- `failed`; a byte out of range reads as 0, which `Bitmap.Valid` rules out.
pub mod Bits
pub mod Valid
pub mod Alloc
pub mod Create
pub mod Count
use test_fs.Prelude.{
  ℕ, zero, suc, ◌+◌, ◌-◌, ◌*◌, ◌/◌, ◌%◌, ◌^◌, bit_and, bit_or, Bool, true, false, Option, none,
  some, List, ◌&&◌, not, ltb, ◌==◌, if◌then◌else◌, length, get_or, set, replicate,
}
use test_fs.Bytes.{Byte, CInt, neg, div_round_up}

-- BITS_PER_WORD
abbrev pub bits_per_word : ℕ
bits_per_word = 8

-- WORD_ALLBITS
abbrev pub word_allbits : Byte
word_allbits = 0xff

pub record Bitmap : Type 0 where
  pub nbits : ℕ
  pub v : List Byte

abbrev pub word : Bitmap → ℕ → Byte
word b ix = get_or b.v ix 0

-- The loop of `bitmap_create` over the leftover bits, from `j` on.
unfoldable pub mark_leftover : (rounds j : ℕ) → Byte → Byte
mark_leftover zero j w = w
mark_leftover (suc rounds) j w = mark_leftover rounds (j + 1) (bit_or w (2 ^ j))

-- The part of `bitmap_create` behind its two allocations. The number of words is computed in 32 bits.
unfoldable pub new_bitmap : ℕ → Option Bitmap
unfolding mark_leftover
new_bitmap nbits =
    let words = (nbits + bits_per_word - 1) % 2 ^ 32 / bits_per_word in
    let zeroed = replicate words 0 in
    let ix = words - 1 in
    let overbits = nbits - ix * bits_per_word in
    if ltb (nbits / bits_per_word) words
    then (if (nbits / bits_per_word == ix) && ltb 0 overbits && ltb overbits bits_per_word
        then some (record {
          nbits = nbits;
          v =
              set zeroed ix
                (mark_leftover (bits_per_word - overbits) overbits (get_or zeroed ix 0));
        })
        else none)
    else some (record { nbits = nbits; v = zeroed })

-- What `bitmap_create` comes to: a bitmap, an error, or a failed `assert`.
pub data Creation : Type 0 where
  created : Bitmap → Creation
  refused : CInt → Creation
  asserted : Creation

-- -ENOMEM
abbrev pub enomem : CInt
enomem = neg 12

-- Behind the allocations.
abbrev pub creation : Option Bitmap → Creation
creation none = asserted
creation (some b) = created b

-- bitmap_create, where `malloc` gives the struct, and the array, or returns NULL.
unfoldable pub create : (got_b got_v : Bool) → ℕ → Creation
create got_b got_v nbits =
    if not got_b
    then refused enomem
    else if not got_v
    then refused enomem
    else creation (new_bitmap nbits)

-- The bitmap for a caller that ends on an error.
abbrev pub made : Creation → Option Bitmap
made (created b) = some b
made (refused error) = none
made asserted = none

-- What `bitmap_alloc` comes to: an index, -ENOSPC, or a failed `assert`.
pub data Allocation : Type 0 where
  allocated : ℕ → Bitmap → Allocation
  no_space : Allocation
  failed : Allocation

-- The inner loop of `bitmap_alloc`: the first clear bit of a word, from `offset` on.
unfoldable pub find_clear : (rounds offset : ℕ) → Byte → Option ℕ
find_clear zero offset w = none
find_clear (suc rounds) offset w =
    let rest = find_clear rounds (offset + 1) w in
    if bit_and w (2 ^ offset) == 0 then some offset else rest

-- The body of the outer loop at a word that is not full.
unfoldable pub take_bit : Bitmap → (ix : ℕ) → Option ℕ → Allocation
take_bit b ix none = failed
take_bit b ix (some offset) =
    let index = ix * bits_per_word + offset in
    if ltb index b.nbits
    then allocated index (record b { v = set b.v ix (bit_or (word b ix) (2 ^ offset)) })
    else failed

-- The outer loop of `bitmap_alloc`.
unfoldable pub alloc_from : Bitmap → (rounds ix : ℕ) → Allocation
unfolding take_bit find_clear
alloc_from b zero ix = no_space
alloc_from b (suc rounds) ix =
    let rest = alloc_from b rounds (ix + 1) in
    if word b ix == word_allbits
    then rest
    else take_bit b ix (find_clear bits_per_word 0 (word b ix))

-- bitmap_alloc
unfoldable pub alloc : Bitmap → Allocation
unfolding alloc_from
alloc b = alloc_from b (div_round_up b.nbits bits_per_word) 0

-- bitmap_translate: the word and the mask of a bit.
unfoldable pub translate : ℕ → ℕ × Byte
translate bitno = (bitno / bits_per_word, 2 ^ (bitno % bits_per_word))

-- bitmap_isset: the masked word, which the callers test for 0.
unfoldable pub isset : Bitmap → ℕ → ℕ
unfolding translate
isset b index = let (ix, mask) = translate index in bit_and (word b ix) mask

-- bitmap_mark
unfoldable pub mark : Bitmap → ℕ → Option Bitmap
unfolding translate
mark b index =
    let (ix, mask) = translate index in
    if ltb index b.nbits && (bit_and (word b ix) mask == 0)
    then some (record b { v = set b.v ix (bit_or (word b ix) mask) })
    else none

-- bitmap_unmark; `~mask` on a byte is `255 - mask`.
unfoldable pub unmark : Bitmap → ℕ → Option Bitmap
unfolding translate
unmark b index =
    let (ix, mask) = translate index in
    if ltb index b.nbits && not (bit_and (word b ix) mask == 0)
    then some (record b { v = set b.v ix (bit_and (word b ix) (word_allbits - mask)) })
    else none

-- The loop of `bitmap_equal`, from word `ix` on.
unfoldable pub equal_from : (a b : Bitmap) (rounds ix : ℕ) → Bool
equal_from a b zero ix = true
equal_from a b (suc rounds) ix = (word a ix == word b ix) && equal_from a b rounds (ix + 1)

-- bitmap_equal
unfoldable pub equal : (a b : Bitmap) → Bool
unfolding equal_from
equal a b = (a.nbits == b.nbits) && equal_from a b (div_round_up b.nbits bits_per_word) 0

-- The loop of `bitmap_nr_allocated`, from bit `i` on; `i` and `nr` are ints.
unfoldable pub count_from : Bitmap → (rounds i nr : CInt) → CInt
unfolding isset
count_from b zero i nr = nr
count_from b (suc rounds) i nr =
    count_from b rounds ((i + 1) % 2 ^ 32) (if isset b i == 0 then nr else (nr + 1) % 2 ^ 32)

-- bitmap_nr_allocated
unfoldable pub nr_allocated : Bitmap → CInt
unfolding count_from
nr_allocated b = count_from b b.nbits 0 0
