-- ===== src/Inode.antt =====
-- src/inode.c: inodes on the device, in the hash table, and the blocks that a file maps. A function
-- on a struct inode takes its value and returns the new one; `with_inode` of Inode/Table.antt runs
-- it on the inode of the hash table. The scratch buffers on the stack start as `p.stack`.
pub mod Map
pub mod Truncate
pub mod File
pub mod Data
pub mod Table
use test_fs.Prelude.{
  ℕ, zero, suc, ◌+◌, ◌-◌, ◌*◌, ◌/◌, ◌%◌, Bool, true, false, Option, none, some, List, [], ◌∷◌, ◌++◌,
  ◌&&◌, not, leb, ltb, ◌==◌, if◌then◌else◌, length, get_or, set, min,
}
use test_fs.Bytes.{
  Byte, CInt, neg, is_neg, is_pos, le_int, max_int, div_round_up, slice, blit, get_int, set_int,
}
use test_fs.Platform.{Platform, block_size}
use test_fs.World.{
  DInode, Inode, nr_direct_blocks, nr_indirect_blocks, Cmd, ◌>>=◌, ◌>>◌, pure, assert, abort,
  exhausted,
}
use test_fs.Block.{read_blocks, write_blocks}
use test_fs.Freemap.{alloc_block, free_block}
use test_fs.Csum.{calculate_csum, put_csum}

-- -EFBIG
abbrev pub efbig : CInt
efbig = neg 27

-- The assignment `in->in.i_block_nr[i] = nr`, with the flag that goes with it.
abbrev pub set_direct : Inode → ℕ → CInt → Inode
set_direct i l nr = record i {
  din = record i.din { i_block_nr = set i.din.i_block_nr l nr };
  dirty = true;
}

-- `in->in.i_indirect = nr`
abbrev pub set_indirect : Inode → CInt → Inode
set_indirect i nr = record i { din = record i.din { i_indirect = nr }; dirty = true }

-- `in->in.i_size = size`
abbrev pub set_size : Inode → CInt → Inode
set_size i size = record i { din = record i.din { i_size = size }; dirty = true }

module _ ⦃p : Platform⦄ where
  -- The end of `testfs_get_block`: a mapped block is read into the buffer.
  unfoldable pub read_mapped : CInt → List Byte → Cmd (CInt × List Byte)
  read_mapped phy_block_nr block =
      if is_pos phy_block_nr
      then (do b ← read_blocks phy_block_nr 1; pure (phy_block_nr, b))
      else pure (phy_block_nr, block)

  -- testfs_get_block: the physical number, and the buffer.
  unfoldable pub get_block : Inode → List Byte → (log_block_nr : ℕ) → Cmd (CInt × List Byte)
  get_block i block log_block_nr =
      if ltb log_block_nr nr_direct_blocks
      then read_mapped (get_or i.din.i_block_nr log_block_nr 0) block
      else if leb nr_indirect_blocks (log_block_nr - nr_direct_blocks)
      then pure (efbig, block)
      else if i.din.i_indirect == 0
      then pure (0, block)
      else do
        indirect ← read_blocks i.din.i_indirect 1
        read_mapped (get_int indirect (4 * (log_block_nr - nr_direct_blocks))) indirect

  -- The part of `testfs_allocate_block` for a direct block.
  unfoldable pub allocate_direct :
      Inode → List Byte → (log_block_nr : ℕ) → Cmd (CInt × List Byte × Inode)
  allocate_direct i block log_block_nr = do
    (phy_block_nr, b) ← alloc_block block
    pure
        (phy_block_nr, b, if is_neg phy_block_nr then i else set_direct i log_block_nr phy_block_nr)

  -- The indirect block of `testfs_allocate_block`: allocated if there is none, else read. The
  -- number is negative if there is no space; the inode is then as before.
  unfoldable pub load_indirect : Inode → Cmd (CInt × List Byte × Inode)
  load_indirect i =
      if i.din.i_indirect == 0
      then (do
        (phy_block_nr, indirect) ← alloc_block p.stack
        pure (
          phy_block_nr,
          indirect,
          if is_neg phy_block_nr then i else set_indirect i phy_block_nr,
        ))
      else (do indirect ← read_blocks i.din.i_indirect 1; pure (0, indirect, i))

  -- The rest of `testfs_allocate_block` for int `slot` of the indirect block.
  unfoldable pub allocate_slot :
      Inode → (block indirect : List Byte) → (slot : ℕ) → Cmd (CInt × List Byte × Inode)
  allocate_slot i block indirect slot = do
    (phy_block_nr, b) ← alloc_block block
    write_blocks
        (if is_pos phy_block_nr then set_int indirect (4 * slot) phy_block_nr else indirect)
        i.din.i_indirect 1
    pure (phy_block_nr, b, i)

  unfoldable pub allocate_indirect : Inode → List Byte → (slot : ℕ) → Cmd (CInt × List Byte × Inode)
  allocate_indirect i block slot = do
    assert (ltb slot nr_indirect_blocks)
    (ret, indirect, i') ← load_indirect i
    if is_neg ret then pure (ret, block, i') else allocate_slot i' block indirect slot

  -- testfs_allocate_block: the number, the buffer and the inode.
  unfoldable pub allocate_block :
      Inode → List Byte → (log_block_nr : ℕ) → Cmd (CInt × List Byte × Inode)
  allocate_block i block log_block_nr = do
    (phy_block_nr, b) ← get_block i block log_block_nr
    if not (phy_block_nr == 0)
        then pure (phy_block_nr, b, i)
        else if ltb log_block_nr nr_direct_blocks
        then allocate_direct i b log_block_nr
        else allocate_indirect i b (log_block_nr - nr_direct_blocks)
