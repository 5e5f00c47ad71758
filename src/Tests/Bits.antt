-- ===== src/Tests/Bits.antt =====
-- The theorems on bitmaps at concrete inputs.
use test_fs.Prelude.{
  ℕ, zero, suc, get_or, ◌/◌, ◌%◌, ◌+◌, ◌<◌, ◌≡◌, refl, ◌∙◌, ap, true, false, some, ◌↔◌, arith,
  replicate, length-replicate, get_or-replicate,
}
use test_fs.Bitmap.{
  created, refused, enomem, Bitmap, create, alloc, mark, unmark, equal, nr_allocated,
}
use test_fs.Bitmap.Bits.{bit, all_below, all_below_sound}
use test_fs.Bitmap.Valid.{is_set, is_set-bit, IsValid, Updated, mark_lem, unmark_lem, equal_iff}
use test_fs.Bitmap.Alloc.{IsFirstFit, alloc-IsFirstFit}
use test_fs.Bitmap.Create.{IsFresh, create-IsFresh}
use test_fs.Bitmap.Count.{
  set_below-full, set_below-clear, nr_allocated-set_below, ones, nr_allocated-ones,
  nr_allocated-mark, nr_allocated-unmark, Counts, alloc-Counts,
}
use test_fs.Platform.Ram.{ram}

abbrev pub fresh : Bitmap
fresh = (create-IsFresh true true 8192 (omega arith)).0

pub fresh-IsFresh : IsFresh 8192 fresh
fresh-IsFresh = (create-IsFresh true true 8192 (omega arith)).2

pub fresh-count : nr_allocated fresh ≡ 0
fresh-count =
    nr_allocated-set_below fresh (omega (arith, fresh-IsFresh.size))
    ∙ set_below-clear fresh fresh.nbits
        (λ j h. fresh-IsFresh.clear j (omega (arith, fresh-IsFresh.size)))

create-IsFresh_example :
    (b : Bitmap) × (create true true 13 ≡ created b)
    × IsFresh 13 b
    × (create false false 13 ≡ refused enomem)
    × (create true false 13 ≡ refused enomem)
create-IsFresh_example = create-IsFresh true false 13 (omega arith)

alloc-IsFirstFit_example : IsFirstFit fresh (alloc fresh)
alloc-IsFirstFit_example = alloc-IsFirstFit fresh-IsFresh.valid

alloc-Counts_example : Counts fresh (alloc fresh)
alloc-Counts_example = alloc-Counts fresh-IsFresh.valid (omega (arith, fresh-IsFresh.size))

abbrev marked : (c : Bitmap) × (mark fresh 5 ≡ some c) × Updated fresh 5 true c
marked =
    mark_lem 5 fresh-IsFresh.valid (omega (arith, fresh-IsFresh.size))
      (fresh-IsFresh.clear 5 (omega arith))

marked-nbits : marked.0.nbits ≡ 8192
marked-nbits = marked.2.nbits ∙ fresh-IsFresh.size

abbrev unmarked : (c : Bitmap) × (unmark marked.0 5 ≡ some c) × Updated marked.0 5 false c
unmarked = unmark_lem 5 marked.2.valid (omega (arith, marked-nbits)) (marked.2.bits 5)

equal_example : (equal fresh fresh ≡ true) ↔ (fresh ≡ fresh)
equal_example = equal_iff fresh-IsFresh.valid fresh-IsFresh.valid

nr_allocated-ones_example : nr_allocated fresh ≡ ones fresh fresh.nbits
nr_allocated-ones_example =
    nr_allocated-ones fresh-IsFresh.valid (omega (arith, fresh-IsFresh.size))

nr_allocated-mark_example : nr_allocated marked.0 ≡ nr_allocated fresh + 1
nr_allocated-mark_example =
    nr_allocated-mark 5 (fresh-IsFresh.clear 5 (omega arith)) (omega (arith, fresh-IsFresh.size))
      (omega (arith, fresh-IsFresh.size)) marked.2

nr_allocated-unmark_example : nr_allocated unmarked.0 + 1 ≡ nr_allocated marked.0
nr_allocated-unmark_example =
    nr_allocated-unmark 5 (marked.2.bits 5) (omega (arith, marked-nbits))
      (omega (arith, marked-nbits)) unmarked.2

-- A bitmap with every bit set.
abbrev pub full : Bitmap
full = record { nbits = 8192; v = replicate 1024 255 }

bits_of_full : all_below 8 (bit 255) ≡ true
unfolding all_below
bits_of_full = refl

pub full-is_set : (i : ℕ) → i < 8192 → is_set full i ≡ true
full-is_set i h =
    is_set-bit full i
    ∙ ap (λ w. bit w (i % 8)) (get_or-replicate 1024 (i / 8) 255 0 (omega arith))
    ∙ all_below_sound 8 (bit 255) (i % 8) bits_of_full (omega arith)

word_of_full : (n ix : ℕ) → get_or (replicate n 255) ix 0 < 256
word_of_full zero ix = omega arith
word_of_full (suc n) zero = omega arith
word_of_full (suc n) (suc ix) = word_of_full n ix

pub full-IsValid : IsValid full
full-IsValid = record {
  words = length-replicate {A = ℕ} 1024 255;
  bytes = word_of_full 1024;
  leftover = λ i past inside. absurd (omega (arith, length-replicate {A = ℕ} 1024 255));
}

pub full-count : nr_allocated full ≡ 8192
full-count = nr_allocated-set_below full (omega arith) ∙ set_below-full full 8192 full-is_set
