-- ===== src/Inode/Map/Get.antt =====
-- `testfs_get_block` of src/inode.c.
use test_fs.Prelude.{
  ℕ, ◌-◌, ◌^◌, ◌≤◌, ◌<◌, ◌≡◌, ◌≢◌, refl, sym, true, false, List, arith, ltb, leb, lt→ltb, eq→==,
  ne→==, get_or,
}
use native.Mathlib.Decide.{ℕ_discrete, dec_lt}
use test_fs.Bytes.{Byte, CInt, is_pos, is_neg}
use test_fs.Bitmap.{Bitmap}
use test_fs.Platform.{Platform}
use test_fs.World.{World, Inode, done}
use test_fs.Block.{read_blocks}
use test_fs.Block.Laws.{block_at}
use test_fs.Inode.{read_mapped, get_block}
use test_fs.Inode.Map.{phys, phys-direct, phys-none, phys-indirect, IsMapped}

pub is_pos_of : (n : ℕ) → n ≢ 0 → n < 2 ^ 31 → is_pos n ≡ true
is_pos_of n h s = ground arith

pub not_ltb : (a b : ℕ) → b ≤ a → ltb a b ≡ false
not_ltb a b h = ground arith

pub not_neg_of : (n : ℕ) → n < 2 ^ 31 → is_neg n ≡ false
not_neg_of n h = ground arith

pub not_leb : (a b : ℕ) → b < a → leb a b ≡ false
not_leb a b h = ground arith

module _ ⦃p : Platform⦄ where
  -- The number and the buffer: the block, if there is one.
  pub record Got (w : World p.Dev) (n : CInt) (out : CInt × List Byte) : Type 0 where
    pub number : out.0 ≡ n
    pub buffer : n ≢ 0 → out.1 ≡ block_at w n

  read_mapped-Got :
      (w : World p.Dev) (n : CInt) (block : List Byte)
      → n < 2 ^ 31
      → (out : CInt × List Byte) × (read_mapped n block w ≡ done out w) × Got w n out
  unfolding read_mapped read_blocks
  read_mapped-Got w n block small = elim (ℕ_discrete n 0) [
    | yes z ↦ ((n, block), rw (eq→== n 0 z), record { number = refl; buffer = λ ne. absurd (ne z) })
    | no ne ↦
        ((n, block_at w n), rw (is_pos_of n ne small), record { number = refl; buffer = λ _. refl })
  ]

  pub phys-small :
      {i : Inode} {w : World p.Dev} {free : Bitmap} (m : IsMapped i w free) (l : ℕ)
      → l < 132
      → phys i w l < 2 ^ 31
  phys-small {i} {w} m l h = elim (ℕ_discrete (phys i w l) 0) [
    | yes z ↦ omega arith
    | no ne ↦ omega (arith, (m.laid.blocks l h ne).below, m.ready.small)
  ]

  -- Of a block below the limit of a file, `testfs_get_block` returns the physical number, with the
  -- block in the buffer if that is not 0, and changes nothing.
  pub get_block-Got :
      {i : Inode} {w : World p.Dev} {free : Bitmap} (m : IsMapped i w free) (block : List Byte)
      (l : ℕ)
      → l < 132
      → (out : CInt × List Byte) × (get_block i block l w ≡ done out w) × Got w (phys i w l) out
  unfolding get_block read_blocks
  get_block-Got {i} {w} m block l h = elim (dec_lt l 4) [
    | yes d ↦
        let e : get_or i.din.i_block_nr l 0 ≡ phys i w l = sym (phys-direct i w l d) in
        rw (lt→ltb l 4 d, e) (read_mapped-Got w (phys i w l) block (phys-small m l h))
    | no g ↦ elim (ℕ_discrete i.din.i_indirect 0) [
      | yes z ↦ (
        (0, block),
        rw (not_ltb l 4 (omega arith), not_leb 128 (l - 4) (omega arith), eq→== _ _ z),
        record {
          number = sym (phys-none i w l (omega arith) z);
          buffer = λ ne. absurd (ne (phys-none i w l (omega arith) z));
        },
      )
      | no ne ↦
          let e = sym (phys-indirect i w l (omega arith) ne) in
          rw (not_ltb l 4 (omega arith), not_leb 128 (l - 4) (omega arith), ne→== _ _ ne, e)
            (read_mapped-Got w (phys i w l) (block_at w i.din.i_indirect) (phys-small m l h))
    ]
  ]
