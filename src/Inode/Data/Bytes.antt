-- ===== src/Inode/Data/Bytes.antt =====
-- The bytes of a file, and what one round of `testfs_write_data` does to them.
use test_fs.Prelude.{
  ℕ, ◌+◌, ◌-◌, ◌*◌, ◌/◌, ◌%◌, ◌≤◌, ◌<◌, ◌≡◌, ◌≢◌, refl, sym, ◌∙◌, ap, ap₂, ◌⊎◌, inl, inr, List,
  arith, length, get_or,
}
use native.Mathlib.Decide.{ℕ_discrete}
use test_fs.Bytes.{Byte, blit, zero_bytes}
use test_fs.Bytes.Laws.{
  get_or-blit_before, get_or-blit_inside, get_or-blit_after, length-zero_bytes,
}
use test_fs.Bitmap.{Bitmap}
use test_fs.Platform.{Platform}
use test_fs.World.{World, Inode}
use test_fs.Block.Laws.{block_at, length-block_at}
use test_fs.Inode.Map.{phys}
use test_fs.Inode.Data.Store.{Stepped}

-- The bytes that a file can have, 132 blocks of 512.
abbrev pub max_size : ℕ
max_size = 67584

module _ ⦃p : Platform⦄ where
  -- Byte `q` of the blocks of an inode, whatever its size.
  abbrev pub byte_at : Inode → World p.Dev → ℕ → Byte
  byte_at i w q = get_or (block_at w (phys i w (q / 512))) (q % 512) 0

  module _ {i : Inode} {w : World p.Dev} {free : Bitmap} {l o : ℕ} {chunk : List Byte} {j : Inode}
      {v : World p.Dev} (s : Stepped i w free l o chunk j v) (fits : o + length chunk ≤ 512) where
    pub step_stays : (k : ℕ) → k < 132 → phys i w k ≢ 0 → phys j v k ≡ phys i w k
    step_stays k hk ne = elim (ℕ_discrete k l) [
      | yes e ↦ ap (phys j v) e ∙ s.stays (λ z. ne (ap (phys i w) e ∙ z)) ∙ ap (phys i w) (sym e)
      | no o ↦ s.others k hk o
    ]

    pub step_mapped :
        (q : ℕ) → l * 512 + o ≤ q → q < l * 512 + o + length chunk → phys j v (q / 512) ≢ 0
    step_mapped q lo hi z = s.here (ap (phys j v) (in_block q l lo hi) ∙ z)
      where
        in_block : (q l : ℕ) → l * 512 + o ≤ q → q < l * 512 + o + length chunk → l ≡ q / 512
        in_block q l lo hi = omega arith

    -- The written block, over whatever was there.
    written_base :
        (base : List Byte) × (length base ≡ 512)
        × (block_at v (phys j v l) ≡ blit base o chunk)
        × (phys i w l ≢ 0 → base ≡ block_at w (phys i w l))
    written_base = elim (ℕ_discrete (phys i w l) 0) [
      | yes z ↦ (zero_bytes 512, length-zero_bytes 512, s.fresh z, λ ne. absurd (ne z))
      | no ne ↦ (block_at w (phys i w l), length-block_at w (phys i w l), s.old ne, λ _. refl)
    ]

    pub step_inside :
        (q : ℕ)
        → l * 512 + o ≤ q
        → q < l * 512 + o + length chunk
        → byte_at j v q ≡ get_or chunk (q - (l * 512 + o)) 0
    step_inside q lo hi =
        let (base, size, stored, old) = written_base in
        ap₂ (λ k n. get_or (block_at v (phys j v k)) n 0) (in_block q l lo hi) (place q l lo hi)
        ∙ ap (λ b. get_or b (o + (q - (l * 512 + o))) 0) stored
        ∙ get_or-blit_inside base o chunk (omega arith) (q - (l * 512 + o)) (omega arith)
      where
        in_block : (q l : ℕ) → l * 512 + o ≤ q → q < l * 512 + o + length chunk → q / 512 ≡ l
        in_block q l lo hi = omega arith

        place :
            (q l : ℕ)
            → l * 512 + o ≤ q
            → q < l * 512 + o + length chunk
            → q % 512 ≡ o + (q - (l * 512 + o))
        place q l lo hi = omega arith

    beside_chunk :
        (q : ℕ)
        → (q % 512 < o) ⊎ (o + length chunk ≤ q % 512)
        → phys i w l ≢ 0
        → get_or (block_at v (phys j v l)) (q % 512) 0
          ≡ get_or (block_at w (phys i w l)) (q % 512) 0
    beside_chunk q out ne =
        let (base, size, stored, old) = written_base in
        ap (λ b. get_or b (q % 512) 0) stored
        ∙ of base size out
        ∙ ap (λ b. get_or b (q % 512) 0) (old ne)
      where
        of :
            (base : List Byte)
            → length base ≡ 512
            → (q % 512 < o) ⊎ (o + length chunk ≤ q % 512)
            → get_or (blit base o chunk) (q % 512) 0 ≡ get_or base (q % 512) 0
        of base size (inl b) = get_or-blit_before base o chunk (omega arith) (q % 512) b
        of base size (inr a) = get_or-blit_after base o chunk (omega arith) (q % 512) a

    pub step_outside :
        (q : ℕ)
        → q < max_size
        → (q < l * 512 + o) ⊎ (l * 512 + o + length chunk ≤ q)
        → phys i w (q / 512) ≢ 0
        → byte_at j v q ≡ byte_at i w q
    step_outside q small out ne = elim (ℕ_discrete (q / 512) l) [
      | no o ↦ ap (λ b. get_or b (q % 512) 0) (s.kept (q / 512) (omega arith) o ne)
      | yes e ↦
          ap (λ k. get_or (block_at v (phys j v k)) (q % 512) 0) e
          ∙ beside_chunk q (place q l e out) (λ z. ne (ap (phys i w) e ∙ z))
          ∙ ap (λ k. get_or (block_at w (phys i w k)) (q % 512) 0) (sym e)
    ]
      where
        place :
            (q l : ℕ)
            → q / 512 ≡ l
            → (q < l * 512 + o) ⊎ (l * 512 + o + length chunk ≤ q)
            → (q % 512 < o) ⊎ (o + length chunk ≤ q % 512)
        place q l e (inl b) = inl (omega arith)
        place q l e (inr a) = inr (omega arith)
