-- ===== src/Bitmap/Count.antt =====
-- `bitmap_nr_allocated` of src/bitmap.c, with allocation and release.
use test_fs.Prelude.{
  ℕ, zero, suc, ◌+◌, ◌/◌, ◌%◌, ◌^◌, ap₂, get_or, ◌≤◌, ◌<◌, ◌≡◌, refl, sym, ◌∙◌, ap, subst, ◌-◌,
  Bool, true, false, arith, ◌==◌, if◌then◌else◌,
}
use native.Mathlib.Decide.{ℕ_discrete}
use test_fs.Bitmap.{
  Bitmap, word, Allocation, allocated, no_space, failed, isset, count_from, nr_allocated, alloc,
}
use test_fs.Bitmap.Bits.{bit-digit}
use test_fs.Bitmap.Valid.{IsValid, Updated, is_set, is_set-bit}
use test_fs.Bitmap.Alloc.{IsFirstFit, alloc-IsFirstFit}

abbrev one_if : Bool → ℕ
one_if b = if b then 1 else 0

-- The number of set bits below `n`.
abbrev pub set_below : Bitmap → ℕ → ℕ
set_below b zero = 0
set_below b (suc n) = one_if (is_set b n) + set_below b n

suc_step : (b : Bitmap) (n : ℕ) → set_below b (n + 1) ≡ one_if (is_set b n) + set_below b n
suc_step b n = ap (set_below b) (plus_one n)
  where
    plus_one : (n : ℕ) → n + 1 ≡ suc n
    plus_one n = omega arith

count_from_lem :
    (b : Bitmap) (rounds i nr : ℕ)
    → i + rounds < 2 ^ 32
    → nr + rounds < 2 ^ 32
    → count_from b rounds i nr + set_below b i ≡ nr + set_below b (i + rounds)
unfolding count_from
count_from_lem b zero i nr small few = ap (λ k. nr + set_below b k) (same i)
  where
    same : (i : ℕ) → i ≡ i + 0
    same i = omega arith
count_from_lem b (suc rounds) i nr small few =
    rw (wrap i (omega arith), wrap nr (omega arith))
      (ground (
        arith,
        count_from_lem b rounds (i + 1) (if isset b i == 0 then nr else nr + 1) (omega arith)
            (one_more (isset b i == 0)),
        suc_step b i,
        ap (set_below b) (shift i rounds),
      ))
  where
    wrap : (n : ℕ) → n + 1 < 2 ^ 32 → (n + 1) % 2 ^ 32 ≡ n + 1
    wrap n h = omega arith

    one_more : (t : Bool) → (if t then nr else nr + 1) + rounds < 2 ^ 32
    one_more true = omega arith
    one_more false = omega arith

    shift : (i n : ℕ) → i + 1 + n ≡ i + suc n
    shift i n = omega arith

pub nr_allocated-set_below : (b : Bitmap) → b.nbits < 2 ^ 31 → nr_allocated b ≡ set_below b b.nbits
unfolding nr_allocated
nr_allocated-set_below b small = omega (
  arith,
  count_from_lem b b.nbits 0 0 (omega arith) (omega arith),
  ap (set_below b) (from_zero b.nbits),
)
  where
    from_zero : (n : ℕ) → 0 + n ≡ n
    from_zero n = omega arith

-- The sum of the binary digits of the words, for the first `n` bits.
abbrev pub ones : Bitmap → ℕ → ℕ
ones b zero = 0
ones b (suc n) = get_or b.v (n / 8) 0 / 2 ^ (n % 8) % 2 + ones b n

one_if-digit : (d : ℕ) → d < 2 → one_if (d == 1) ≡ d
one_if-digit zero h = refl
one_if-digit (suc zero) h = refl
one_if-digit (suc (suc d)) h = absurd (omega arith)

set_below-ones : {b : Bitmap} → IsValid b → (n : ℕ) → set_below b n ≡ ones b n
set_below-ones valid zero = refl
set_below-ones {b} valid (suc n) =
    ap₂ (λ x y. x + y)
      (ap one_if
          (is_set-bit b n ∙ bit-digit (word b (n / 8)) (n % 8) (valid.bytes (n / 8)) (omega arith))
        ∙ one_if-digit (word b (n / 8) / 2 ^ (n % 8) % 2) (omega arith))
      (set_below-ones valid n)

-- On a valid bitmap of fewer than 2 ^ 31 bits, where its ints do not overflow,
-- `bitmap_nr_allocated` is the sum of the first `nbits` binary digits of the words.
pub nr_allocated-ones :
    {b : Bitmap} → IsValid b → b.nbits < 2 ^ 31 → nr_allocated b ≡ ones b b.nbits
nr_allocated-ones {b} valid small = nr_allocated-set_below b small ∙ set_below-ones valid b.nbits

set_below_same :
    (b c : Bitmap) (n : ℕ)
    → ((j : ℕ) → j < n → is_set c j ≡ is_set b j)
    → set_below c n ≡ set_below b n
set_below_same b c zero h = refl
set_below_same b c (suc n) h =
    λ i. one_if (h n (omega arith) i) + set_below_same b c n (λ j l. h j (omega arith)) i

set_below-Updated :
    (b c : Bitmap) (i n : ℕ)
    → is_set b i ≡ false
    → ((j : ℕ) → is_set c j ≡ (if j == i then true else is_set b j))
    → i < n
    → set_below c n ≡ set_below b n + 1
set_below-Updated b c i zero clear bits h = absurd (omega arith)
set_below-Updated b c i (suc n) clear bits h = elim (ℕ_discrete n i) [
  | yes e ↦
      ground (arith, bits n, ap (is_set b) e, set_below_same b c n (λ j l. bits j ∙ ground arith))
  | no ne ↦ ground (arith, bits n, set_below-Updated b c i n clear bits (omega arith))
]

-- Setting a clear bit below `nbits` adds one to the count.
pub nr_allocated-mark :
    {b c : Bitmap} (i : ℕ)
    → is_set b i ≡ false
    → i < b.nbits
    → b.nbits < 2 ^ 31
    → Updated b i true c
    → nr_allocated c ≡ nr_allocated b + 1
nr_allocated-mark {b} {c} i clear h small u =
    nr_allocated-set_below c (omega (arith, u.nbits))
    ∙ ap (set_below c) u.nbits
    ∙ set_below-Updated b c i b.nbits clear u.bits h
    ∙ ap (λ k. k + 1) (sym (nr_allocated-set_below b small))

-- Clearing a set bit below `nbits` takes one from the count.
pub nr_allocated-unmark :
    {b c : Bitmap} (i : ℕ)
    → is_set b i ≡ true
    → i < b.nbits
    → b.nbits < 2 ^ 31
    → Updated b i false c
    → nr_allocated c + 1 ≡ nr_allocated b
nr_allocated-unmark {b} {c} i on h small u =
    ap (λ k. k + 1) (nr_allocated-set_below c (omega (arith, u.nbits)) ∙ ap (set_below c) u.nbits)
    ∙ sym (
        set_below-Updated c b i b.nbits (u.bits i ∙ ground arith) (λ j. ground (arith, u.bits j)) h)
    ∙ sym (nr_allocated-set_below b small)

pub set_below-clear :
    (b : Bitmap) (n : ℕ) → ((j : ℕ) → j < n → is_set b j ≡ false) → set_below b n ≡ 0
set_below-clear b zero h = refl
set_below-clear b (suc n) h = ground (arith, h n, set_below-clear b n (λ j l. h j (omega arith)))

pub set_below-full :
    (b : Bitmap) (n : ℕ) → ((j : ℕ) → j < n → is_set b j ≡ true) → set_below b n ≡ n
set_below-full b zero h = refl
set_below-full b (suc n) h = ground (arith, h n, set_below-full b n (λ j l. h j (omega arith)))

set_below-le : (b : Bitmap) (n : ℕ) → set_below b n ≤ n
set_below-le b zero = omega arith
set_below-le b (suc n) = ground (arith, set_below-le b n)

set_below-lt : (b : Bitmap) (i n : ℕ) → i < n → is_set b i ≡ false → set_below b n < n
set_below-lt b i zero h clear = absurd (omega arith)
set_below-lt b i (suc n) h clear = elim (ℕ_discrete n i) [
  | yes e ↦ ground (arith, ap (is_set b) e, set_below-le b n)
  | no ne ↦ ground (arith, set_below-lt b i n (omega arith) clear)
]

-- How the count answers an allocation.
abbrev pub Counts : Bitmap → Allocation → Type 0
Counts b (allocated i c) = (nr_allocated b < b.nbits) × (nr_allocated c ≡ nr_allocated b + 1)
Counts b no_space = nr_allocated b ≡ b.nbits
Counts b failed = ⊥

-- On a valid bitmap of fewer than 2 ^ 31 bits `bitmap_alloc` succeeds exactly while fewer than
-- `nbits` bits are counted by `bitmap_nr_allocated`, which it then raises by one.
pub alloc-Counts : {b : Bitmap} → IsValid b → b.nbits < 2 ^ 31 → Counts b (alloc b)
alloc-Counts {b} valid small = of (alloc b) (alloc-IsFirstFit valid)
  where
    of : (r : Allocation) → IsFirstFit b r → Counts b r
    of (allocated i c) f = (
      omega (arith, nr_allocated-set_below b small, set_below-lt b i b.nbits f.0 f.1),
      nr_allocated-mark i f.1 f.0 small f.3,
    )
    of no_space f = nr_allocated-set_below b small ∙ set_below-full b b.nbits f
    of failed f = f

set_below-add : (b : Bitmap) (m k : ℕ) → set_below b m ≤ set_below b (k + m)
set_below-add b m zero = subst (λ n. set_below b m ≤ set_below b n) (from_zero m) (omega arith)
  where
    from_zero : (n : ℕ) → n ≡ 0 + n
    from_zero n = omega arith
set_below-add b m (suc k) =
    subst (λ n. set_below b m ≤ set_below b n) (shift m k) (ground (arith, set_below-add b m k))
  where
    shift : (m k : ℕ) → suc (k + m) ≡ suc k + m
    shift m k = omega arith

-- The index of a first fit is at most the number of bits in use.
pub first_fit-le :
    (b : Bitmap) (i : ℕ)
    → i < b.nbits
    → b.nbits < 2 ^ 31
    → ((j : ℕ) → j < i → is_set b j ≡ true)
    → i ≤ nr_allocated b
first_fit-le b i h small below = omega (
  arith,
  nr_allocated-set_below b small,
  set_below-full b i below,
  set_below-add b i (b.nbits - i),
  ap (set_below b) (whole b.nbits i h),
)
  where
    whole : (n i : ℕ) → i < n → n - i + i ≡ n
    whole n i h = omega arith
