-- ===== src/Inode/Map/Laid.antt =====
-- A map of logical blocks into the data area, injective and beside its indirect block, all of it
-- marked in the freemap; and how it grows by a block that was clear.
use test_fs.Prelude.{ℕ, ◌+◌, ◌-◌, ◌≤◌, ◌<◌, ◌≡◌, ◌≢◌, sym, ◌∙◌, ap, subst, true, false, arith}
use native.Mathlib.Decide.{ℕ_discrete}
use test_fs.Bytes.{CInt}
use test_fs.Bitmap.{Bitmap}
use test_fs.Bitmap.Valid.{Updated, is_set}

-- Block `n` is a data block that has a checksum and is in use.
pub record InData (d : ℕ) (b : Bitmap) (n : CInt) : Type 0 where
  pub above : d ≤ n
  pub below : n < d + 7680
  pub used : is_set b (n - d) ≡ true

pub record IsLaid (f : ℕ → CInt) (indirect : CInt) (d : ℕ) (b : Bitmap) : Type 0 where
  pub blocks : (l : ℕ) → l < 132 → f l ≢ 0 → InData d b (f l)
  pub at_indirect : indirect ≢ 0 → InData d b indirect
  pub apart : (l m : ℕ) → l < 132 → m < 132 → f l ≢ 0 → f l ≡ f m → l ≡ m
  pub beside : (l : ℕ) → l < 132 → f l ≢ 0 → f l ≢ indirect

-- What holds of a number stays when the map is read through another function.
pub IsLaid-same :
    {f g : ℕ → CInt} {indirect : CInt} {d : ℕ} {b : Bitmap}
    → IsLaid f indirect d b
    → ((m : ℕ) → m < 132 → g m ≡ f m)
    → IsLaid g indirect d b
IsLaid-same {f} {g} {d} {b} h same = record {
  blocks = λ l hl ne. subst (InData d b) (sym (same l hl)) (h.blocks l hl (ne' l hl ne));
  at_indirect = h.at_indirect;
  apart = λ l m hl hm ne e. h.apart l m hl hm (ne' l hl ne) (sym (same l hl) ∙ e ∙ same m hm);
  beside = λ l hl ne e. h.beside l hl (ne' l hl ne) (sym (same l hl) ∙ e);
}
  where
    ne' : (l : ℕ) → l < 132 → g l ≢ 0 → f l ≢ 0
    ne' l hl ne e = ne (same l hl ∙ e)

module _ {d : ℕ} {b c : Bitmap} {index : ℕ} (update : Updated b index true c) where
  pub InData-keep : {n : CInt} → InData d b n → InData d c n
  InData-keep {n} h = record {
    above = h.above;
    below = h.below;
    used = update.bits (n - d) ∙ ground (arith, h.used);
  }

  pub InData-new : index < 7680 → InData d c (d + index)
  InData-new small = record {
    above = omega arith;
    below = omega arith;
    used = ap (is_set c) (back d index) ∙ update.bits index ∙ ground arith;
  }
    where
      back : (d n : ℕ) → d + n - d ≡ n
      back d n = omega arith

-- A number in use is not that of a clear bit.
pub InData-ne :
    {d : ℕ} {b : Bitmap} (index : ℕ) {n : CInt}
    → InData d b n
    → is_set b index ≡ false
    → n ≢ d + index
InData-ne {d} {b} index {n} h clear e = cc (h.used, ap (is_set b) (back d index n e), clear)
  where
    back : (d k n : ℕ) → n ≡ d + k → n - d ≡ k
    back d k n e = omega arith

module _ {f : ℕ → CInt} {indirect : CInt} {d : ℕ} {b c : Bitmap} {index : ℕ}
    (h : IsLaid f indirect d b) (update : Updated b index true c) (clear : is_set b index ≡ false)
    (small : index < 7680) (past : 0 < d) where
  -- A new block at a place that had none.
  pub IsLaid-grow :
      {g : ℕ → CInt} (l : ℕ)
      → l < 132
      → f l ≡ 0
      → g l ≡ d + index
      → ((m : ℕ) → m < 132 → m ≢ l → g m ≡ f m)
      → IsLaid g indirect d c
  IsLaid-grow {g} l hl none new same = record {
    blocks = λ m hm ne. elim (ℕ_discrete m l) [
      | yes e ↦ subst (InData d c) (sym (at m e)) (InData-new update small)
      | no o ↦
          subst (InData d c) (sym (same m hm o))
            (InData-keep update (h.blocks m hm (old m hm o ne)))
    ];
    at_indirect = λ ne. InData-keep update (h.at_indirect ne);
    apart = λ m n hm hn ne e. elim (ℕ_discrete m l) [
      | yes em ↦ elim (ℕ_discrete n l) [
        | yes en ↦ em ∙ sym en
        | no on ↦ absurd (fresh n hn on (λ z. ne (e ∙ z)) (sym e ∙ at m em))
      ]
      | no om ↦ elim (ℕ_discrete n l) [
        | yes en ↦ absurd (fresh m hm om ne (e ∙ at n en))
        | no on ↦ h.apart m n hm hn (old m hm om ne) (sym (same m hm om) ∙ e ∙ same n hn on)
      ]
    ];
    beside = λ m hm ne e. elim (ℕ_discrete m l) [
      | yes em ↦ indirect_ne (sym e ∙ at m em)
      | no om ↦ h.beside m hm (old m hm om ne) (sym (same m hm om) ∙ e)
    ];
  }
    where
      at : (m : ℕ) → m ≡ l → g m ≡ d + index
      at m e = ap g e ∙ new

      old : (m : ℕ) → m < 132 → m ≢ l → g m ≢ 0 → f m ≢ 0
      old m hm o ne e = ne (same m hm o ∙ e)

      fresh : (m : ℕ) → m < 132 → m ≢ l → g m ≢ 0 → g m ≢ d + index
      fresh m hm o ne e =
          InData-ne index (h.blocks m hm (old m hm o ne)) clear (sym (same m hm o) ∙ e)

      indirect_ne : indirect ≢ d + index
      indirect_ne e = elim (ℕ_discrete indirect 0) [
        | yes z ↦ absurd (omega arith)
        | no ne ↦ InData-ne index (h.at_indirect ne) clear e
      ]

  -- A new indirect block.
  pub IsLaid-indirect : indirect ≡ 0 → IsLaid f (d + index) d c
  IsLaid-indirect none = record {
    blocks = λ m hm ne. InData-keep update (h.blocks m hm ne);
    at_indirect = λ ne. InData-new update small;
    apart = h.apart;
    beside = λ m hm ne e. InData-ne index (h.blocks m hm ne) clear e;
  }
