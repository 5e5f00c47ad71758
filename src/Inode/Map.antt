-- ===== src/Inode/Map.antt =====
-- The map of a file from logical to physical blocks: the direct numbers of the inode, then the ints
-- of the indirect block on the device; and the invariant that keeps the blocks of a file apart.
pub mod Laid
pub mod Get
pub mod Slot
pub mod Allocate
use test_fs.Prelude.{
  ℕ, ◌+◌, ◌-◌, ◌*◌, ◌≤◌, ◌<◌, ◌≡◌, ◌≢◌, refl, sym, ◌∙◌, ap, true, false, arith, ltb, lt→ltb, ◌==◌,
  if◌then◌else◌, length, get_or,
}
use native.Mathlib.Decide.{ℕ_discrete, dec_lt}
use test_fs.Bytes.{CInt, get_int}
use test_fs.Bitmap.{Bitmap}
use test_fs.Platform.{Platform}
use test_fs.World.{World, Inode, nr_direct_blocks}
use test_fs.Block.Laws.{block_at}
use test_fs.Freemap.Blocks.{IsReady}
use Laid.{IsLaid}

-- The logical blocks that an inode can map, NR_DIRECT_BLOCKS + NR_INDIRECT_BLOCKS.
abbrev pub max_blocks : ℕ
max_blocks = 132

module _ ⦃p : Platform⦄ where
  -- The physical number of a logical block, 0 if it has none.
  unfoldable pub phys : Inode → World p.Dev → ℕ → CInt
  phys i w l =
      if ltb l nr_direct_blocks
      then get_or i.din.i_block_nr l 0
      else if i.din.i_indirect == 0
      then 0
      else get_int (block_at w i.din.i_indirect) (4 * (l - nr_direct_blocks))

  pub phys-direct :
      (i : Inode) (w : World p.Dev) (l : ℕ) → l < 4 → phys i w l ≡ get_or i.din.i_block_nr l 0
  unfolding phys
  phys-direct i w l h = rw (lt→ltb l 4 h)

  pub phys-none :
      (i : Inode) (w : World p.Dev) (l : ℕ) → 4 ≤ l → i.din.i_indirect ≡ 0 → phys i w l ≡ 0
  unfolding phys
  phys-none i w l h e = ground arith

  pub phys-indirect :
      (i : Inode) (w : World p.Dev) (l : ℕ)
      → 4 ≤ l
      → i.din.i_indirect ≢ 0
      → phys i w l ≡ get_int (block_at w i.din.i_indirect) (4 * (l - 4))
  unfolding phys
  phys-indirect i w l h ne = ground arith

  -- The map depends on the device only through the indirect block.
  pub phys-same :
      (i : Inode) (v w : World p.Dev) (k : ℕ)
      → (i.din.i_indirect ≢ 0 → block_at v i.din.i_indirect ≡ block_at w i.din.i_indirect)
      → phys i v k ≡ phys i w k
  phys-same i v w k same = elim (dec_lt k 4) [
    | yes d ↦ phys-direct i v k d ∙ sym (phys-direct i w k d)
    | no g ↦ elim (ℕ_discrete i.din.i_indirect 0) [
      | yes z ↦ phys-none i v k (omega arith) z ∙ sym (phys-none i w k (omega arith) z)
      | no ne ↦
          phys-indirect i v k (omega arith) ne
          ∙ ap (λ b. get_int b (4 * (k - 4))) (same ne)
          ∙ sym (phys-indirect i w k (omega arith) ne)
    ]
  ]

  -- The file system is ready, and the blocks of the inode are in the data area, taken and apart.
  pub record IsMapped (i : Inode) (w : World p.Dev) (free : Bitmap) : Type 0 where
    pub ready : IsReady w.fs free
    pub direct : length i.din.i_block_nr ≡ 4
    pub laid : IsLaid (phys i w) i.din.i_indirect w.fs.sb.data_blocks_start free
