-- ===== src/Inode/Truncate.antt =====
-- `testfs_truncate_data` of src/inode.c.
use test_fs.Prelude.{ℕ, zero, suc, ◌+◌, ◌-◌, ◌*◌, List, ltb, ◌==◌, if◌then◌else◌, get_or, min}
use test_fs.Bytes.{Byte, is_pos, le_int, div_round_up, get_int, set_int}
use test_fs.Platform.{Platform, block_size}
use test_fs.World.{Inode, nr_direct_blocks, nr_indirect_blocks, Cmd, ◌>>=◌, ◌>>◌, pure, assert}
use test_fs.Block.{read_blocks, write_blocks}
use test_fs.Freemap.{free_block}
use test_fs.Inode.{set_direct, set_indirect, set_size}

module _ ⦃p : Platform⦄ where
  -- The loop of `testfs_truncate_data` over the direct blocks, with `rounds` left from block `l` on.
  unfoldable pub free_direct : (rounds l : ℕ) → Inode → Cmd Inode
  free_direct zero l i = pure i
  free_direct (suc rounds) l i = do
    assert (is_pos (get_or i.din.i_block_nr l 0))
    free_block (get_or i.din.i_block_nr l 0)
    free_direct rounds (l + 1) (set_direct i l 0)

  -- The loop over the ints of the indirect block, in its buffer.
  unfoldable pub free_slots : (rounds slot : ℕ) → List Byte → Cmd (List Byte)
  free_slots zero slot block = pure block
  free_slots (suc rounds) slot block = do
    assert (is_pos (get_int block (4 * slot)))
    free_block (get_int block (4 * slot))
    free_slots rounds (slot + 1) (set_int block (4 * slot) 0)

  -- The part of `testfs_truncate_data` on the indirect block, from int `s` up to `e`.
  unfoldable pub free_indirect : (s e : ℕ) → Inode → Cmd Inode
  free_indirect s e i =
      if ltb 0 e
      then (do
        assert (is_pos i.din.i_indirect)
        block ← read_blocks i.din.i_indirect 1
        block' ← free_slots (min e nr_indirect_blocks - s) s block
        if s == 0
            then (do free_block i.din.i_indirect; pure (set_indirect i 0))
            else (do write_blocks block' i.din.i_indirect 1; pure i))
      else (do assert (i.din.i_indirect == 0); pure i)

  -- testfs_truncate_data
  unfoldable pub truncate_data : Inode → (size : ℕ) → Cmd Inode
  truncate_data i size =
      let s_block_nr = div_round_up size block_size in
      let e_block_nr = div_round_up i.din.i_size block_size in
      if le_int i.din.i_size size then pure i else (do
        i' ← free_direct (min e_block_nr nr_direct_blocks - s_block_nr) s_block_nr i
        i'' ← free_indirect (s_block_nr - nr_direct_blocks) (e_block_nr - nr_direct_blocks) i'
        pure (set_size i'' size))
