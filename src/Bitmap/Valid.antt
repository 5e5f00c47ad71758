-- ===== src/Bitmap/Valid.antt =====
-- The invariant of a bitmap, and `bitmap_mark`, `bitmap_unmark` and `bitmap_equal` under it.
use native.Mathlib.Decide.{ℕ_discrete}
use test_fs.Prelude.{
  ℕ, zero, suc, ◌+◌, ◌-◌, ◌*◌, ◌/◌, ◌%◌, ◌^◌, ◌≤◌, ◌<◌, bit_and, bit_or, ◌≡◌, ◌≢◌, ◌↔◌, refl, sym,
  ◌∙◌, ap, ap₂, subst, Bool, true, false, some, not, arith, ◌==◌, if◌then◌else◌, length, get_or,
  set, length-set, get_or-set_self, get_or-set_ne, list_ext,
}
use test_fs.Bytes.{Byte, div_round_up}
use test_fs.Bitmap.{Bitmap, word, isset, mark, unmark, equal, equal_from}
use test_fs.Bitmap.Bits.{
  bit, bit-or_self, bit-or_other, or-lt, bit-clear_self, bit-clear_other, clear-lt, byte_ext,
}

-- The test that callers make on `bitmap_isset`.
abbrev pub is_set : Bitmap → ℕ → Bool
is_set b i = not (isset b i == 0)

pub is_set-bit : (b : Bitmap) (i : ℕ) → is_set b i ≡ bit (word b (i / 8)) (i % 8)
unfolding isset
is_set-bit b i = refl

-- The array has a word for each eight bits, and the bits past the end are in use.
pub record IsValid (b : Bitmap) : Type 0 where
  pub words : length b.v ≡ div_round_up b.nbits 8
  pub bytes : (ix : ℕ) → word b ix < 256
  pub leftover : (i : ℕ) → b.nbits ≤ i → i < 8 * length b.v → is_set b i ≡ true

-- `c` is `b` with bit `i` set to `value`.
pub record Updated (b : Bitmap) (i : ℕ) (value : Bool) (c : Bitmap) : Type 0 where
  pub valid : IsValid c
  pub nbits : c.nbits ≡ b.nbits
  pub bits : (j : ℕ) → is_set c j ≡ (if j == i then value else is_set b j)

abbrev pub set_word : Bitmap → ℕ → Byte → Bitmap
set_word b ix w = record b { v = set b.v ix w }

module _ {b : Bitmap} (valid : IsValid b) (ix : ℕ) (w : Byte) (small : w < 256) where
  bytes-set_word : (j : ℕ) → ix < length b.v → word (set_word b ix w) j < 256
  bytes-set_word j h = elim (ℕ_discrete ix j) [
    | yes e ↦ rw (← e, get_or-set_self b.v ix w 0 h) small
    | no ne ↦ rw (get_or-set_ne b.v ix j w 0 ne) (valid.bytes j)
  ]

-- A word that differs from the old one in bit `i` alone.
pub set_word-Updated :
    {b : Bitmap} (i : ℕ) (value : Bool) (w : Byte)
    → IsValid b
    → i < b.nbits
    → w < 256
    → bit w (i % 8) ≡ value
    → ((k : ℕ) → k < 8 → k ≢ i % 8 → bit w k ≡ bit (word b (i / 8)) k)
    → Updated b i value (set_word b (i / 8) w)
set_word-Updated {b} i value w valid h small self other = record {
  valid = record {
    words = length-set b.v (i / 8) w ∙ valid.words;
    bytes = λ j. bytes-set_word valid (i / 8) w small j in_range;
    leftover = λ j past inside.
        bits j ∙ ground (arith, valid.leftover j past (omega (arith, length-set b.v (i / 8) w)));
  };
  nbits = refl;
  bits = bits;
}
  where
    in_range : i / 8 < length b.v
    in_range = omega (arith, valid.words)

    in_word : (j : ℕ) → i / 8 ≡ j / 8 → bit w (j % 8) ≡ (if j == i then value else is_set b j)
    in_word j e = elim (ℕ_discrete j i) [
      | yes same ↦ ground (arith, ap (λ k. bit w (k % 8)) same, self)
      | no ne ↦ ground (
        arith,
        other (j % 8) (omega arith) (omega arith),
        is_set-bit b j,
        ap (λ k. bit (word b k) (j % 8)) e,
      )
    ]

    bits : (j : ℕ) → is_set (set_word b (i / 8) w) j ≡ (if j == i then value else is_set b j)
    bits j = elim (ℕ_discrete (i / 8) (j / 8)) [
      | yes e ↦
          is_set-bit (set_word b (i / 8) w) j
          ∙ ap (λ x. bit x (j % 8))
              (ap (λ k. get_or (set b.v (i / 8) w) k 0) (sym e)
                ∙ get_or-set_self b.v (i / 8) w 0 in_range)
          ∙ in_word j e
      | no ne ↦
          is_set-bit (set_word b (i / 8) w) j
          ∙ ap (λ x. bit x (j % 8)) (get_or-set_ne b.v (i / 8) (j / 8) w 0 ne)
          ∙ sym (is_set-bit b j)
          ∙ ground (arith, λ (p : j ≡ i). ne (ap (λ k. k / 8) (sym p)))
    ]

pub or-Updated :
    {b : Bitmap} (i : ℕ)
    → IsValid b
    → i < b.nbits
    → Updated b i true (set_word b (i / 8) (bit_or (word b (i / 8)) (2 ^ (i % 8))))
or-Updated {b} i valid h =
    set_word-Updated i true _ valid h (or-lt w k small (omega arith))
      (bit-or_self w k small (omega arith)) (λ j l ne. bit-or_other w k j small (omega arith) l ne)
  where
    w : ℕ
    w = word b (i / 8)

    k : ℕ
    k = i % 8

    small : w < 256
    small = valid.bytes (i / 8)

-- On a clear bit below `nbits`, `bitmap_mark` passes its asserts and sets that bit alone.
pub mark_lem :
    {b : Bitmap} (i : ℕ)
    → IsValid b
    → i < b.nbits
    → is_set b i ≡ false
    → (c : Bitmap) × (mark b i ≡ some c) × Updated b i true c
unfolding mark isset
mark_lem {b} i valid h clear =
    (set_word b (i / 8) (bit_or (word b (i / 8)) (2 ^ (i % 8))), ground arith, or-Updated i valid h)

-- On a set bit below `nbits`, `bitmap_unmark` passes its asserts and clears that bit alone.
pub unmark_lem :
    {b : Bitmap} (i : ℕ)
    → IsValid b
    → i < b.nbits
    → is_set b i ≡ true
    → (c : Bitmap) × (unmark b i ≡ some c) × Updated b i false c
unfolding unmark isset
unmark_lem {b} i valid h on = (
  set_word b (i / 8) (bit_and w (255 - 2 ^ k)),
  ground arith,
  set_word-Updated i false _ valid h (clear-lt w k small (omega arith))
      (bit-clear_self w k small (omega arith))
      (λ j l ne. bit-clear_other w k j small (omega arith) l ne),
)
  where
    w : ℕ
    w = word b (i / 8)

    k : ℕ
    k = i % 8

    small : w < 256
    small = valid.bytes (i / 8)

-- Valid bitmaps of one size with the same bits are equal.
pub bitmap_ext :
    {b c : Bitmap}
    → IsValid b
    → IsValid c
    → b.nbits ≡ c.nbits
    → ((i : ℕ) → is_set b i ≡ is_set c i)
    → b ≡ c
unfolding isset
bitmap_ext {b} {c} vb vc e h = λ i. record {
  nbits = e i;
  v =
      list_ext b.v c.v 0 (vb.words ∙ ap (λ n. div_round_up n 8) e ∙ sym vc.words)
        (λ ix _. byte_ext (word b ix) (word c ix) (vb.bytes ix) (vc.bytes ix) (λ k l. at ix k l)) i;
}
  where
    at : (ix k : ℕ) → k < 8 → bit (word b ix) k ≡ bit (word c ix) k
    at ix k l =
        ap₂ (λ j n. bit (word b j) n) (quot ix k l) (rest ix k l)
        ∙ h (8 * ix + k)
        ∙ ap₂ (λ j n. bit (word c j) n) (sym (quot ix k l)) (sym (rest ix k l))
      where
        quot : (ix k : ℕ) → k < 8 → ix ≡ (8 * ix + k) / 8
        quot ix k l = omega arith

        rest : (ix k : ℕ) → k < 8 → k ≡ (8 * ix + k) % 8
        rest ix k l = omega arith

equal_from_iff :
    (a b : Bitmap) (rounds ix : ℕ)
    → (equal_from a b rounds ix ≡ true) ↔ ((j : ℕ) → ix ≤ j → j < ix + rounds → word a j ≡ word b j)
unfolding equal_from
equal_from_iff a b zero ix = (λ _ j l u. absurd (omega arith), λ _. refl)
equal_from_iff a b (suc rounds) ix =
    let rest = equal_from_iff a b rounds (ix + 1) in
    (
      λ h j l u. elim (ℕ_discrete ix j) [
        | yes e ↦ subst (λ k. word a k ≡ word b k) e (ground (arith, h))
        | no ne ↦ rest.0 (ground (arith, h)) j (omega arith) (omega arith)
      ],
      λ h.
          let here : word a ix ≡ word b ix = h ix (omega arith) (omega arith) in
          let later = rest.1 (λ j l u. h j (omega arith) (omega arith)) in ground (arith, later),
    )

-- `bitmap_equal` of two valid bitmaps answers TRUE exactly when they are equal.
pub equal_iff : {a b : Bitmap} → IsValid a → IsValid b → (equal a b ≡ true) ↔ (a ≡ b)
unfolding equal
equal_iff {a} {b} va vb = (
  λ h.
      let words = (equal_from_iff a b (div_round_up b.nbits 8) 0).0 (ground arith) in
      let size : a.nbits ≡ b.nbits = ground arith in
      λ i. record {
        nbits = size i;
        v =
            list_ext a.v b.v 0 (va.words ∙ ap (λ n. div_round_up n 8) size ∙ sym vb.words)
              (λ ix l. words ix (omega arith) (omega (arith, va.words, vb.words, size))) i;
      },
  λ e.
      let words =
        (equal_from_iff a b (div_round_up b.nbits 8) 0).1 (λ j _ _. ap (λ x. word x j) e) in
      ground (arith, ap (λ (x : Bitmap). x.nbits) e),
)
