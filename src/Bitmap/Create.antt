-- ===== src/Bitmap/Create.antt =====
-- `bitmap_create` of src/bitmap.c.
use test_fs.Prelude.{
  ℕ, zero, suc, ◌+◌, ◌^◌, Bool, ◌-◌, ◌*◌, ◌/◌, ◌%◌, ◌≤◌, ◌<◌, ◌≡◌, ◌≢◌, refl, sym, ◌∙◌, ap, true,
  false, some, List, arith, ltb, lt→ltb, not, length, get_or, set, replicate, length-set,
  length-replicate, get_or-set_self, get_or-set_ne,
}
use test_fs.Bytes.{Byte, div_round_up}
use native.Mathlib.Decide.{ℕ_discrete}
use test_fs.Bitmap.{
  Bitmap, word, new_bitmap, creation, created, refused, create, enomem, mark_leftover,
}
use test_fs.Bitmap.Bits.{bit, bit-zero, bit-leftover, leftover-lt}
use test_fs.Bitmap.Valid.{IsValid, is_set, is_set-bit}

-- A new bitmap of `nbits` clear bits.
pub record IsFresh (nbits : ℕ) (b : Bitmap) : Type 0 where
  pub valid : IsValid b
  pub size : b.nbits ≡ nbits
  pub clear : (i : ℕ) → i < nbits → is_set b i ≡ false

abbrev zeros : ℕ → List Byte
zeros n = replicate n 0

length-zeros : (n : ℕ) → length (zeros n) ≡ n
length-zeros n = length-replicate n 0

get_or-zeros : (n i : ℕ) → get_or (zeros n) i 0 ≡ 0
get_or-zeros zero i = refl
get_or-zeros (suc n) zero = refl
get_or-zeros (suc n) (suc i) = get_or-zeros n i

not-ltb : (a b : ℕ) → b ≤ a → not (ltb a b) ≡ true
not-ltb a b h = ground arith

abbrev blank : ℕ → Bitmap
blank nbits = record { nbits = nbits; v = zeros (div_round_up nbits 8) }

bit-blank : (nbits i : ℕ) → is_set (blank nbits) i ≡ false
bit-blank nbits i =
    is_set-bit (blank nbits) i
    ∙ ap (λ w. bit w (i % 8)) (get_or-zeros (div_round_up nbits 8) (i / 8))
    ∙ bit-zero (i % 8) (omega arith)

blank-IsFresh : (nbits : ℕ) → nbits % 8 ≡ 0 → IsFresh nbits (blank nbits)
blank-IsFresh nbits whole = record {
  valid = record {
    words = length-zeros (div_round_up nbits 8);
    bytes = λ ix. omega (arith, get_or-zeros (div_round_up nbits 8) ix);
    leftover = λ i past inside. absurd (omega (arith, length-zeros (div_round_up nbits 8)));
  };
  size = refl;
  clear = λ i _. bit-blank nbits i;
}

-- The last word, with the bits from `nbits` on in use.
abbrev last_word : ℕ → Byte
last_word nbits = mark_leftover (8 - nbits % 8) (nbits % 8) 0

abbrev padded : ℕ → Bitmap
padded nbits = record {
  nbits = nbits;
  v = set (zeros (div_round_up nbits 8)) (nbits / 8) (last_word nbits);
}

module _ (nbits : ℕ) (partial : nbits % 8 ≢ 0) where
  word-last : word (padded nbits) (nbits / 8) ≡ last_word nbits
  word-last =
      get_or-set_self (zeros (div_round_up nbits 8)) (nbits / 8) (last_word nbits) 0
        (omega (arith, length-zeros (div_round_up nbits 8)))

  word-other : (ix : ℕ) → nbits / 8 ≢ ix → word (padded nbits) ix ≡ 0
  word-other ix ne =
      get_or-set_ne (zeros (div_round_up nbits 8)) (nbits / 8) ix (last_word nbits) 0 ne
      ∙ get_or-zeros (div_round_up nbits 8) ix

  bit-last : (i : ℕ) → nbits / 8 ≡ i / 8 → is_set (padded nbits) i ≡ not (ltb (i % 8) (nbits % 8))
  bit-last i e =
      is_set-bit (padded nbits) i
      ∙ ap (λ w. bit w (i % 8)) (ap (word (padded nbits)) (sym e) ∙ word-last)
      ∙ bit-leftover (nbits % 8) (omega arith) (i % 8) (omega arith)

  padded-IsFresh : IsFresh nbits (padded nbits)
  padded-IsFresh = record {
    valid = record {
      words =
          length-set (zeros (div_round_up nbits 8)) (nbits / 8) (last_word nbits)
          ∙ length-zeros (div_round_up nbits 8);
      bytes = λ ix. elim (ℕ_discrete (nbits / 8) ix) [
        | yes e ↦
            omega
              (arith, ap (word (padded nbits)) e, word-last, leftover-lt (nbits % 8) (omega arith))
        | no ne ↦ omega (arith, word-other ix ne)
      ];
      leftover = λ i past inside.
          let size = length-set (zeros (div_round_up nbits 8)) (nbits / 8) (last_word nbits) in
          let here : nbits / 8 ≡ i / 8 = omega (arith, length-zeros (div_round_up nbits 8)) in
          bit-last i here ∙ not-ltb (i % 8) (nbits % 8) (omega arith);
    };
    size = refl;
    clear = λ i h. elim (ℕ_discrete (nbits / 8) (i / 8)) [
      | yes e ↦ bit-last i e ∙ ground arith
      | no ne ↦
          is_set-bit (padded nbits) i
          ∙ ap (λ w. bit w (i % 8)) (word-other (i / 8) ne)
          ∙ bit-zero (i % 8) (omega arith)
    ];
  }

words_lem : (nbits : ℕ) → nbits + 7 < 2 ^ 32 → (nbits + 8 - 1) % 2 ^ 32 / 8 ≡ div_round_up nbits 8
words_lem nbits small = omega arith

pub new_bitmap-IsFresh :
    (nbits : ℕ) → nbits + 7 < 2 ^ 32 → (b : Bitmap) × (new_bitmap nbits ≡ some b) × IsFresh nbits b
unfolding new_bitmap
new_bitmap-IsFresh nbits small = rw (words_lem nbits small) (elim (ℕ_discrete (nbits % 8) 0) [
  | yes whole ↦ (blank nbits, ground arith, blank-IsFresh nbits whole)
  | no partial ↦ (
    padded nbits,
    rw
        (
          lt→ltb (nbits / 8) (div_round_up nbits 8) (omega arith),
          last nbits partial,
          over nbits partial,
          get_or-zeros (div_round_up nbits 8) (nbits / 8),
        )
        (ground arith),
    padded-IsFresh nbits partial,
  )
])
  where
    last : (n : ℕ) → n % 8 ≢ 0 → div_round_up n 8 - 1 ≡ n / 8
    last n h = omega arith

    over : (n : ℕ) → n % 8 ≢ 0 → n - n / 8 * 8 ≡ n % 8
    over n h = omega arith

-- Where its number of words does not overflow, `bitmap_create` never fails an assert, and what it
-- makes is fresh; when either of its allocations fails it returns -ENOMEM.
pub create-IsFresh :
    (got_b got_v : Bool) (nbits : ℕ)
    → nbits + 7 < 2 ^ 32
    → (b : Bitmap) × (create true true nbits ≡ created b)
      × IsFresh nbits b
      × (create false got_v nbits ≡ refused enomem)
      × (create got_b false nbits ≡ refused enomem)
unfolding create
create-IsFresh got_b got_v nbits small =
    let (b, e, fresh) = new_bitmap-IsFresh nbits small in
    (b, ap creation e, fresh, refl, no_array got_b)
  where
    no_array : (g : Bool) → create g false nbits ≡ refused enomem
    no_array true = refl
    no_array false = refl
