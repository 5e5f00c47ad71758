-- ===== src/Inode/File.antt =====
-- `testfs_read_data` and `testfs_write_data` of src/inode.c.
use test_fs.Prelude.{ℕ, zero, suc, ◌+◌, ◌-◌, ◌/◌, ◌%◌, List, [], ◌++◌, leb, if◌then◌else◌, length}
use test_fs.Bytes.{Byte, CInt, is_neg, is_pos, le_int, max_int, slice, blit}
use test_fs.Platform.{Platform, block_size}
use test_fs.World.{Inode, Cmd, ◌>>=◌, ◌>>◌, pure, assert, exhausted}
use test_fs.Block.{write_blocks}
use test_fs.Csum.{calculate_csum, put_csum}
use test_fs.Inode.{set_size, get_block, allocate_block}
use test_fs.Inode.Truncate.{truncate_data}

module _ ⦃p : Platform⦄ where
  -- The loop of `testfs_read_data`; `out` is `buf` up to `buf_offset`, which is its length.
  unfoldable pub read_from :
      (fuel : ℕ) → Inode → (start size b_offset : ℕ) → (out : List Byte) → Cmd (CInt × List Byte)
  read_from zero i start size b_offset out = λ _. exhausted
  read_from (suc fuel) i start size b_offset out =
      let left = size - length out in
      let room = block_size - b_offset in
      let more = λ (chunk : List Byte). read_from fuel i start size 0 (out ++ chunk) in
      do
        (block_nr, block) ← get_block i p.stack ((start + length out) / block_size)
        if is_neg block_nr then pure (block_nr, out) else (do
          assert (is_pos block_nr)
          if leb left room
              then pure (0, out ++ slice block b_offset left)
              else more (slice block b_offset room))

  -- testfs_read_data: 0 and the bytes, or an error and the bytes read before it.
  unfoldable pub read_data : Inode → (start size : ℕ) → Cmd (CInt × List Byte)
  read_data i start size = do
    assert (le_int (start + size) i.din.i_size)
    read_from (size / block_size + 2) i start size (start % block_size) []

  -- What `testfs_write_data` does when there is no block: it gives back what it grew by.
  unfoldable pub undo_write : Inode → (ret : CInt) → (reached : ℕ) → Cmd (CInt × Inode)
  undo_write i ret reached = do
    i' ← truncate_data (set_size i (max_int i.din.i_size reached)) i.din.i_size
    pure (ret, i')

  -- One block of `testfs_write_data`, with the buffer filled in and its checksum stored.
  unfoldable pub store_block :
      (block_nr : CInt)
      → (block : List Byte) → (b_offset : ℕ) → (chunk : List Byte) → Cmd (Unit {0})
  store_block block_nr block b_offset chunk = do
    csum ← calculate_csum (blit block b_offset chunk) block_size
    write_blocks (blit block b_offset chunk) block_nr 1
    put_csum block_nr csum

  -- The loop of `testfs_write_data`.
  unfoldable pub write_from :
      (fuel : ℕ)
      → Inode
      → (start : ℕ) → (buf : List Byte) → (b_offset buf_offset : ℕ) → Cmd (CInt × Inode)
  write_from zero i start buf b_offset buf_offset = λ _. exhausted
  write_from (suc fuel) i start buf b_offset buf_offset =
      let left = length buf - buf_offset in
      let room = block_size - b_offset in
      let more = λ (i' : Inode). write_from fuel i' start buf 0 (buf_offset + room) in
      do
        (block_nr, block, i') ← allocate_block i p.stack ((start + buf_offset) / block_size)
        if is_neg block_nr then undo_write i' block_nr (start + buf_offset) else (do
          assert (is_pos block_nr)
          if leb left room
              then (do
                store_block block_nr block b_offset (slice buf buf_offset left)
                pure (0, set_size i' (max_int i'.din.i_size (start + length buf))))
              else (do store_block block_nr block b_offset (slice buf buf_offset room); more i'))

  -- testfs_write_data, for the `length buf` bytes of `buf`.
  unfoldable pub write_data : Inode → (start : ℕ) → (buf : List Byte) → Cmd (CInt × Inode)
  write_data i start buf = do
    assert (le_int start i.din.i_size)
    write_from (length buf / block_size + 2) i start buf (start % block_size) 0
