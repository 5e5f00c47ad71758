-- ===== src/Alternate.antt =====
-- src/inode_alternate_common.c and src/inode_alternate_sync.c: the alternate write path, which
-- allocates in memory, keeps the indirect block in the inode, and writes many inodes at once. The
-- asynchronous half, src/inode_alternate_async.c, has the same plan of a write with other transfers
-- and is in Alternate/Flight.antt. Offsets and sizes are those of callers, not negative.
pub mod Limit
pub mod Numbers
pub mod Given
pub mod Stored
pub mod Bulk
pub mod Flight
use test_fs.Prelude.{
  ℕ, zero, suc, ◌+◌, ◌-◌, ◌*◌, ◌/◌, ◌%◌, Bool, true, false, List, ◌&&◌, not, leb, ltb, ◌==◌,
  if◌then◌else◌, length, get_or,
}
use test_fs.Bytes.{Byte, CInt, is_neg, is_pos, max_int, slice, blit, zero_bytes, get_int, set_int}
use test_fs.Platform.{Platform, block_size}
use test_fs.World.{
  World, Inode, nr_direct_blocks, nr_indirect_blocks, Run, Cmd, ◌>>=◌, ◌>>◌, pure, assert,
}
use test_fs.Block.{read_blocks, write_blocks}
use test_fs.Csum.{calculate_csum, set_csum}
use test_fs.Freemap.{alloc_block_alternate}
use test_fs.Inode.{efbig, set_direct, set_indirect, set_size}

-- A block of a file that is read, and one that is written: the inode is passed on.
abbrev pub ReadBlock : Type 0 → Type 0
ReadBlock W = Inode → ℕ → W → Run W (List Byte × Inode)

abbrev pub WriteBlock : Type 0 → Type 0
WriteBlock W = Inode → ℕ → List Byte → W → Run W (CInt × Inode)

module _ {W : Type 0} where
  -- The loop over the blocks that are written whole, with `rounds` left from block `l` on.
  unfoldable pub write_contig :
      WriteBlock W
      → (rounds l : ℕ) → (buf : List Byte) → (buf_offset : ℕ) → Inode
      → W
      → Run W (CInt × Inode)
  write_contig write zero l buf buf_offset i = pure (0, i)
  write_contig write (suc rounds) l buf buf_offset i =
      let rest = write_contig write rounds (l + 1) buf (buf_offset + block_size) in
      do
        (ret, i') ← write i l (slice buf buf_offset block_size)
        if is_neg ret then pure (ret, i') else rest i'

  -- The first block of a write that starts inside it. The code copies the rest of the block from
  -- the buffer; a buffer that is shorter than that is read past its end, which aborts here.
  unfoldable pub write_head :
      WriteBlock W
      → (l first_block_offset : ℕ) → (buf head : List Byte) → Inode
      → W
      → Run W (CInt × Inode)
  write_head write l first_block_offset buf head i =
      if first_block_offset == 0 then pure (0, i) else do
        assert (leb (block_size - first_block_offset) (length buf))
        write i l (blit head first_block_offset (slice buf 0 (block_size - first_block_offset)))

  -- The last block of a write that ends inside it.
  unfoldable pub write_tail :
      WriteBlock W → (l tail_size : ℕ) → (buf tail : List Byte) → Inode → W → Run W (CInt × Inode)
  write_tail write l tail_size buf tail i =
      if tail_size == 0
      then pure (0, i)
      else write i l (blit tail 0 (slice buf (length buf - tail_size) tail_size))

  -- Step 5 of a write, and its end.
  unfoldable pub write_ends :
      WriteBlock W
      → (start log_block_start log_block_end first_block_offset tail_size : ℕ)
      → (buf head tail : List Byte) → Inode
      → W
      → Run W (CInt × Inode)
  write_ends write start log_block_start log_block_end first_block_offset tail_size buf head tail
        i =
      do
        (ret, i') ← write_head write log_block_start first_block_offset buf head i
        if is_neg ret then pure (ret, i') else (do
          (ret', i'') ← write_tail write log_block_end tail_size buf tail i'
          if is_neg ret'
              then pure (ret', i'')
              else pure (0, set_size i'' (max_int i''.din.i_size (start + length buf))))

  -- Steps 3 to 5 of a write, with the ends of the range known.
  unfoldable pub write_range :
      ReadBlock W
      → WriteBlock W
      → (stack : List Byte) → (start log_block_start log_block_end first_block_offset tail_size : ℕ)
      → (buf : List Byte) → Inode
      → W
      → Run W (CInt × Inode)
  write_range read write stack start log_block_start log_block_end first_block_offset tail_size buf
        i =
      let contig_start = if first_block_offset == 0 then log_block_start else log_block_start + 1 in
      let contig_end = if tail_size == 0 then log_block_end + 1 else log_block_end in
      do
        (head, i1) ← (if first_block_offset == 0 then pure (stack, i) else read i log_block_start)
        (tail, i2) ← (if tail_size == 0 then pure (stack, i1) else read i1 log_block_end)
        (ret, i3) ←
            write_contig write (contig_end - contig_start) contig_start buf first_block_offset i2
        if is_neg ret
            then pure (ret, i3)
            else write_ends write start log_block_start log_block_end first_block_offset tail_size
                buf head tail i3

  -- The common text of `testfs_write_data_alternate` and `testfs_write_data_alternate_async`. The
  -- C remainder `tail_size` is below 0 exactly when the buffer is shorter than the offset.
  unfoldable pub write_plan :
      ReadBlock W
      → WriteBlock W
      → (stack : List Byte) → Inode
      → (start : ℕ) → (buf : List Byte) → W
      → Run W (CInt × Inode)
  write_plan read write stack i start buf =
      let first_block_offset = start % block_size in
      let tail_size = (length buf - first_block_offset) % block_size in
      let body_size = length buf - first_block_offset - tail_size in
      let log_block_start = start / block_size in
      let log_block_end =
        log_block_start
        + body_size / block_size
        + (if tail_size == 0 then 0 else 1)
        - (if first_block_offset == 0 then 1 else 0) in
      if length buf == 0 then pure (0, i) else do
        assert (leb first_block_offset (length buf))
        assert (leb log_block_start log_block_end)
        if leb nr_direct_blocks log_block_end
              && leb nr_indirect_blocks (log_block_end - nr_direct_blocks)
            then pure (efbig, i)
            else write_range read write stack start log_block_start log_block_end first_block_offset
                tail_size buf i

module _ ⦃p : Platform⦄ where
  -- testfs_ensure_indirect_loaded; it waits for its own request.
  unfoldable pub ensure_indirect_loaded : Inode → Cmd Inode
  ensure_indirect_loaded i = if i.indirect_loaded then pure i else do
    block ← read_blocks i.din.i_indirect 1
    pure (record i { indirect = block; indirect_loaded = true })

  -- testfs_inode_log_to_phy
  unfoldable pub inode_log_to_phy : Inode → (log_block_nr : ℕ) → Cmd (CInt × Inode)
  inode_log_to_phy i log_block_nr =
      if ltb log_block_nr nr_direct_blocks
      then (do
        assert (not (is_neg (get_or i.din.i_block_nr log_block_nr 0)))
        pure (get_or i.din.i_block_nr log_block_nr 0, i))
      else if leb nr_indirect_blocks (log_block_nr - nr_direct_blocks)
      then pure (efbig, i)
      else if i.din.i_indirect == 0
      then pure (0, i)
      else do
        i' ← ensure_indirect_loaded i
        pure (get_int i'.indirect (4 * (log_block_nr - nr_direct_blocks)), i')

  -- The end of `testfs_allocate_block_alternate`, at an int of the indirect block.
  abbrev pub set_slot : Inode → (slot : ℕ) → CInt → Inode
  set_slot i slot nr = record i {
    indirect = set_int i.indirect (4 * slot) nr;
    indirect_dirty = true;
  }

  -- The part of it behind the direct blocks, for the block `nr` that was allocated.
  unfoldable pub allocate_slot_alternate : Inode → (slot : ℕ) → CInt → Cmd (CInt × Inode)
  allocate_slot_alternate i slot nr =
      if i.din.i_indirect == 0
      then (do
        indirect_block_nr ← alloc_block_alternate
        if is_neg indirect_block_nr
            then pure (indirect_block_nr, record i { dirty = true })
            else pure (
              nr,
              set_slot
                  (record (set_indirect i indirect_block_nr) {
                    indirect = zero_bytes block_size;
                    indirect_loaded = true;
                  })
                  slot nr,
            ))
      else do
        i' ← ensure_indirect_loaded (record i { dirty = true })
        pure (nr, set_slot i' slot nr)

  -- testfs_allocate_block_alternate
  unfoldable pub allocate_block_alternate : Inode → (log_block_nr : ℕ) → Cmd (CInt × Inode)
  allocate_block_alternate i log_block_nr = do
    phy_block_nr ← alloc_block_alternate
    if is_neg phy_block_nr
        then pure (phy_block_nr, i)
        else if ltb log_block_nr nr_direct_blocks
        then pure (phy_block_nr, set_direct i log_block_nr phy_block_nr)
        else allocate_slot_alternate i (log_block_nr - nr_direct_blocks) phy_block_nr

  -- The block that a write goes to: that of the map, or a new one.
  unfoldable pub block_for_write : Inode → (log_block_nr : ℕ) → Cmd (CInt × Inode)
  block_for_write i log_block_nr = do
    (phy_block_nr, i') ← inode_log_to_phy i log_block_nr
    if phy_block_nr == 0 then allocate_block_alternate i' log_block_nr else pure (phy_block_nr, i')

  -- testfs_file_write_block
  unfoldable pub file_write_block : WriteBlock (World p.Dev)
  file_write_block i log_block_nr buf = do
    (phy_block_nr, i') ← block_for_write i log_block_nr
    if is_neg phy_block_nr then pure (phy_block_nr, i') else (do
      write_blocks buf phy_block_nr 1
      csum ← calculate_csum buf block_size
      set_csum phy_block_nr csum
      pure (0, i'))

  -- testfs_file_read_block
  unfoldable pub file_read_block : ReadBlock (World p.Dev)
  file_read_block i log_block_nr = do
    (phy_block_nr, i') ← inode_log_to_phy i log_block_nr
    if is_pos phy_block_nr
        then (do b ← read_blocks phy_block_nr 1; pure (b, i'))
        else pure (zero_bytes block_size, i')

  -- testfs_write_data_alternate
  unfoldable pub write_data_alternate : Inode → (start : ℕ) → List Byte → Cmd (CInt × Inode)
  write_data_alternate = write_plan file_read_block file_write_block p.stack
