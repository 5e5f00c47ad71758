-- ===== src/Bitmap/Bits.antt =====
-- Facts about the bits of one byte, checked for each of the 256 values.
use test_fs.Prelude.{
  ℕ, zero, suc, ◌+◌, ◌-◌, ◌/◌, ◌%◌, ◌^◌, ◌<◌, bit_and, bit_or, ◌≡◌, ◌≢◌, refl, sym, ◌∙◌, Bool, true,
  false, Option, none, some, ◌&&◌, ◌||◌, not, arith, ltb, ◌==◌, ==_iff, if◌then◌else◌,
}
use test_fs.Bytes.{Byte}
use test_fs.Bitmap.{word_allbits, find_clear, mark_leftover}

-- Bit `k` of a byte.
abbrev pub bit : Byte → ℕ → Bool
bit w k = not (bit_and w (2 ^ k) == 0)

-- The test holds of all numbers below a bound.
unfoldable pub all_below : (bound : ℕ) (test : ℕ → Bool) → Bool
all_below zero test = true
all_below (suc bound) test = all_below bound test && test bound

pub all_below_sound :
    (bound : ℕ) (test : ℕ → Bool) (k : ℕ) → all_below bound test ≡ true → k < bound → test k ≡ true
unfolding all_below
all_below_sound zero test k all inside = absurd (omega arith)
all_below_sound (suc bound) test k all inside = ground (arith, all_below_sound bound test k)

-- A table over the bytes and the bits of a byte.
abbrev table : (Byte → ℕ → Bool) → Bool
table p = all_below 256 (λ w. all_below 8 (p w))

from_table : (p : Byte → ℕ → Bool) (w k : ℕ) → table p ≡ true → w < 256 → k < 8 → p w k ≡ true
from_table p w k h hw hk = all_below_sound 8 (p w) k (all_below_sound 256 _ w h hw) hk

same : Bool → Bool → Bool
same true b = b
same false b = not b

same_eq : (a b : Bool) → same a b ≡ true → a ≡ b
unfolding same
same_eq a b h = ground arith

set_table : table (λ w k. bit (bit_or w (2 ^ k)) k && ltb (bit_or w (2 ^ k)) 256) ≡ true
unfolding all_below
set_table = refl

pub bit-or_self : (w k : ℕ) → w < 256 → k < 8 → bit (bit_or w (2 ^ k)) k ≡ true
bit-or_self w k hw hk = ground (arith, from_table _ w k set_table hw hk)

pub or-lt : (w k : ℕ) → w < 256 → k < 8 → bit_or w (2 ^ k) < 256
or-lt w k hw hk = ground (arith, from_table _ w k set_table hw hk)

set_other_table :
    table (λ w k. all_below 8 (λ j. (j == k) || same (bit (bit_or w (2 ^ k)) j) (bit w j))) ≡ true
unfolding all_below same
set_other_table = refl

pub bit-or_other :
    (w k j : ℕ) → w < 256 → k < 8 → j < 8 → j ≢ k → bit (bit_or w (2 ^ k)) j ≡ bit w j
bit-or_other w k j hw hk hj ne = ground (
  arith,
  all_below_sound 8 _ j (from_table _ w k set_other_table hw hk) hj,
  same_eq (bit (bit_or w (2 ^ k)) j) (bit w j),
)

clear_table :
    table (λ w k. not (bit (bit_and w (255 - 2 ^ k)) k) && ltb (bit_and w (255 - 2 ^ k)) 256) ≡ true
unfolding all_below
clear_table = refl

pub bit-clear_self : (w k : ℕ) → w < 256 → k < 8 → bit (bit_and w (255 - 2 ^ k)) k ≡ false
bit-clear_self w k hw hk = ground (arith, from_table _ w k clear_table hw hk)

pub clear-lt : (w k : ℕ) → w < 256 → k < 8 → bit_and w (255 - 2 ^ k) < 256
clear-lt w k hw hk = ground (arith, from_table _ w k clear_table hw hk)

clear_other_table :
    table (λ w k. all_below 8 (λ j. (j == k) || same (bit (bit_and w (255 - 2 ^ k)) j) (bit w j)))
    ≡ true
unfolding all_below same
clear_other_table = refl

pub bit-clear_other :
    (w k j : ℕ) → w < 256 → k < 8 → j < 8 → j ≢ k → bit (bit_and w (255 - 2 ^ k)) j ≡ bit w j
bit-clear_other w k j hw hk hj ne = ground (
  arith,
  all_below_sound 8 _ j (from_table _ w k clear_other_table hw hk) hj,
  same_eq (bit (bit_and w (255 - 2 ^ k)) j) (bit w j),
)

-- A byte is the sum of its bits.
abbrev weight : Byte → ℕ → ℕ
weight w k = if bit w k then 2 ^ k else 0

abbrev total : Byte → ℕ
total w =
    weight w 0
    + weight w 1
    + weight w 2
    + weight w 3
    + weight w 4
    + weight w 5
    + weight w 6
    + weight w 7

total_table : all_below 256 (λ w. w == total w) ≡ true
unfolding all_below
total_table = refl

byte-eq-total : (w : ℕ) → w < 256 → w ≡ total w
byte-eq-total w h = (==_iff w (total w)).0 (all_below_sound 256 _ w total_table h)

-- Bytes with the same bits are equal.
pub byte_ext : (w u : ℕ) → w < 256 → u < 256 → ((k : ℕ) → k < 8 → bit w k ≡ bit u k) → w ≡ u
byte_ext w u hw hu h =
    byte-eq-total w hw
    ∙ (λ i.
        (if h 0 (omega arith) i then 2 ^ 0 else 0)
        + (if h 1 (omega arith) i then 2 ^ 1 else 0)
        + (if h 2 (omega arith) i then 2 ^ 2 else 0)
        + (if h 3 (omega arith) i then 2 ^ 3 else 0)
        + (if h 4 (omega arith) i then 2 ^ 4 else 0)
        + (if h 5 (omega arith) i then 2 ^ 5 else 0)
        + (if h 6 (omega arith) i then 2 ^ 6 else 0)
        + (if h 7 (omega arith) i then 2 ^ 7 else 0))
    ∙ sym (byte-eq-total u hu)

pub bit-allbits : (k : ℕ) → k < 8 → bit word_allbits k ≡ true
bit-allbits k h = all_below_sound 8 (bit word_allbits) k (unfold all_below in refl) h

pub bit-zero : (k : ℕ) → k < 8 → bit 0 k ≡ false
bit-zero k h = ground (arith, all_below_sound 8 (λ k. not (bit 0 k)) k (unfold all_below in refl) h)

-- The search in a word that is not full finds its first clear bit.
abbrev found_ok : Byte → Option ℕ → Bool
found_ok w none = false
found_ok w (some o) = ltb o 8 && not (bit w o) && all_below o (bit w)

find_table : all_below 255 (λ w. found_ok w (find_clear 8 0 w)) ≡ true
unfolding all_below find_clear
find_table = refl

pub find_clear_lem :
    (w : ℕ)
    → w < 256
    → w ≢ word_allbits
    → (o : ℕ) × (find_clear 8 0 w ≡ some o)
      × (o < 8)
      × (bit w o ≡ false)
      × ((j : ℕ) → j < o → bit w j ≡ true)
find_clear_lem w h ne =
    of (find_clear 8 0 w) refl (all_below_sound 255 _ w find_table (omega arith))
  where
    of :
        (r : Option ℕ)
        → find_clear 8 0 w ≡ r
        → found_ok w r ≡ true
        → (o : ℕ) × (find_clear 8 0 w ≡ some o)
          × (o < 8)
          × (bit w o ≡ false)
          × ((j : ℕ) → j < o → bit w j ≡ true)
    of none e f = absurd (cc)
    of (some o) e f =
        (o, e, ground arith, ground arith, λ j l. all_below_sound o (bit w) j (ground arith) l)

-- What the loop over the leftover bits leaves: the bits from `j` on are set, the others clear.
abbrev leftover_ok : ℕ → Bool
leftover_ok j =
    all_below 8 (λ k. same (bit (mark_leftover (8 - j) j 0) k) (not (ltb k j)))
    && ltb (mark_leftover (8 - j) j 0) 256

leftover_table : all_below 8 leftover_ok ≡ true
unfolding all_below same mark_leftover
leftover_table = refl

module _ (j : ℕ) (h : j < 8) where
  pub leftover-lt : mark_leftover (8 - j) j 0 < 256
  leftover-lt = ground (arith, all_below_sound 8 leftover_ok j leftover_table h)

  leftover_bits : all_below 8 (λ k. same (bit (mark_leftover (8 - j) j 0) k) (not (ltb k j))) ≡ true
  leftover_bits = ground (arith, all_below_sound 8 leftover_ok j leftover_table h)

  pub bit-leftover : (k : ℕ) → k < 8 → bit (mark_leftover (8 - j) j 0) k ≡ not (ltb k j)
  bit-leftover k l = same_eq _ _ (all_below_sound 8 _ k leftover_bits l)

digit_table : table (λ w k. same (bit w k) (w / 2 ^ k % 2 == 1)) ≡ true
unfolding all_below same
digit_table = refl

-- The mask finds the binary digit.
pub bit-digit : (w k : ℕ) → w < 256 → k < 8 → bit w k ≡ (w / 2 ^ k % 2 == 1)
bit-digit w k hw hk = same_eq (bit w k) (w / 2 ^ k % 2 == 1) (from_table _ w k digit_table hw hk)
