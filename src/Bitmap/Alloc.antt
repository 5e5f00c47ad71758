-- ===== src/Bitmap/Alloc.antt =====
-- `bitmap_alloc` of src/bitmap.c.
use test_fs.Prelude.{
  ℕ, zero, suc, ◌+◌, ◌*◌, ◌/◌, ◌%◌, ◌^◌, ◌≤◌, ◌<◌, bit_or, ◌≡◌, ◌∙◌, ap, ap₂, subst, true, false,
  some, arith, lt→ltb, eq→==, ne→==, ◌-◌, length,
}
use test_fs.Bytes.{div_round_up}
use native.Mathlib.Decide.{dec_lt, ℕ_discrete}
use test_fs.Bitmap.{
  Bitmap, Allocation, allocated, no_space, failed, word, word_allbits, take_bit, alloc_from, alloc,
}
use test_fs.Bitmap.Bits.{bit, bit-allbits, find_clear_lem}
use test_fs.Bitmap.Valid.{IsValid, Updated, is_set, is_set-bit, set_word, or-Updated}

-- The first clear bit, set and with all else unchanged; or every bit is set; never a failed assert.
abbrev pub IsFirstFit : Bitmap → Allocation → Type 0
IsFirstFit b (allocated i c) =
    (i < b.nbits)
    × (is_set b i ≡ false)
    × ((j : ℕ) → j < i → is_set b j ≡ true)
    × Updated b i true c
IsFirstFit b no_space = (j : ℕ) → j < b.nbits → is_set b j ≡ true
IsFirstFit b failed = ⊥

-- A bit by its word and its place there.
is_set-at : (b : Bitmap) (ix k : ℕ) → k < 8 → is_set b (ix * 8 + k) ≡ bit (word b ix) k
is_set-at b ix k h =
    is_set-bit b (ix * 8 + k) ∙ ap₂ (λ j n. bit (word b j) n) (quot ix k h) (rest ix k h)
  where
    quot : (ix k : ℕ) → k < 8 → (ix * 8 + k) / 8 ≡ ix
    quot ix k h = omega arith

    rest : (ix k : ℕ) → k < 8 → (ix * 8 + k) % 8 ≡ k
    rest ix k h = omega arith

split_index : (j ix : ℕ) → ix * 8 ≤ j → j ≡ ix * 8 + (j - ix * 8)
split_index j ix h = omega arith

module _ {b : Bitmap} (valid : IsValid b) (ix : ℕ) where
  -- A full word adds eight set bits to those before it.
  past_full :
      word b ix ≡ word_allbits
      → ((j : ℕ) → j < ix * 8 → is_set b j ≡ true)
      → (j : ℕ) → j < (ix + 1) * 8
      → is_set b j ≡ true
  past_full full before j h = elim (dec_lt j (ix * 8)) [
    | yes l ↦ before j l
    | no g ↦
        ap (is_set b) (split_index j ix (omega arith))
        ∙ is_set-at b ix (j - ix * 8) (omega arith)
        ∙ ap (λ w. bit w (j - ix * 8)) full
        ∙ bit-allbits (j - ix * 8) (omega arith)
  ]

  -- The first clear bit of a word behind set bits lies below `nbits`.
  take_bit-IsFirstFit :
      (o : ℕ)
      → ix < length b.v
      → o < 8
      → bit (word b ix) o ≡ false
      → ((j : ℕ) → j < o → bit (word b ix) j ≡ true)
      → ((j : ℕ) → j < ix * 8 → is_set b j ≡ true)
      → IsFirstFit b (take_bit b ix (some o))
  unfolding take_bit
  take_bit-IsFirstFit o inside small clear below before = elim (dec_lt (ix * 8 + o) b.nbits) [
    | yes l ↦ rw (lt→ltb _ _ l) (
      l,
      is_set-at b ix o small ∙ clear,
      first,
      subst (λ c. Updated b (ix * 8 + o) true c) (same (ix) o small)
          (or-Updated (ix * 8 + o) valid l),
    )
    | no g ↦
        cc (valid.leftover (ix * 8 + o) (omega arith) (omega arith), is_set-at b ix o small ∙ clear)
  ]
    where
      first : (j : ℕ) → j < ix * 8 + o → is_set b j ≡ true
      first j l = elim (dec_lt j (ix * 8)) [
        | yes h ↦ before j h
        | no g ↦
            ap (is_set b) (split_index j ix (omega arith))
            ∙ is_set-at b ix (j - ix * 8) (omega arith)
            ∙ below (j - ix * 8) (omega arith)
      ]

      same :
          (ix o : ℕ)
          → o < 8
          → set_word b
              ((ix * 8 + o) / 8)
              (bit_or (word b ((ix * 8 + o) / 8)) (2 ^ ((ix * 8 + o) % 8)))
            ≡ set_word b ix (bit_or (word b ix) (2 ^ o))
      same ix o h =
          ap₂ (λ j n. set_word b j (bit_or (word b j) (2 ^ n))) (quot ix o h) (rest ix o h)
        where
          quot : (ix k : ℕ) → k < 8 → (ix * 8 + k) / 8 ≡ ix
          quot ix k h = omega arith

          rest : (ix k : ℕ) → k < 8 → (ix * 8 + k) % 8 ≡ k
          rest ix k h = omega arith

module _ {b : Bitmap} (valid : IsValid b) where
  alloc_from-IsFirstFit :
      (rounds ix : ℕ)
      → ix + rounds ≡ length b.v
      → ((j : ℕ) → j < ix * 8 → is_set b j ≡ true)
      → IsFirstFit b (alloc_from b rounds ix)
  unfolding alloc_from
  alloc_from-IsFirstFit zero ix e before = λ j h. before j (omega (arith, valid.words))
  alloc_from-IsFirstFit (suc rounds) ix e before = elim (ℕ_discrete (word b ix) word_allbits) [
    | yes full ↦
        rw (eq→== _ _ full)
          (alloc_from-IsFirstFit rounds (ix + 1) (omega arith) (past_full valid ix full before))
    | no ne ↦
        let (o, found, small, clear, below) = find_clear_lem (word b ix) (valid.bytes ix) ne in
        rw (ne→== _ _ ne, found)
          (take_bit-IsFirstFit valid ix o (omega arith) small clear below before)
  ]

  -- `bitmap_alloc` on a valid bitmap never fails an assert. It returns the least clear index,
  -- below `nbits`, and sets that bit alone, keeping the bitmap valid; it reports no space only if
  -- every bit below `nbits` is set.
  pub alloc-IsFirstFit : IsFirstFit b (alloc b)
  unfolding alloc
  alloc-IsFirstFit =
      alloc_from-IsFirstFit (div_round_up b.nbits 8) 0 (omega (arith, valid.words))
        (λ j h. absurd (omega arith))
