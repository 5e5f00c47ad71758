-- ===== src/Csum.antt =====
-- src/csum.c: the table of checksums, one int for each data block, in memory and on the device.
-- The asynchronous flushes are in Alternate/Flight.antt.
pub mod Table
use test_fs.Prelude.{
  ℕ, zero, suc, ◌+◌, ◌*◌, ◌/◌, ◌%◌, bit_xor, Bool, true, false, List, ◌&&◌, not, ltb, ◌==◌,
  if◌then◌else◌, length, get_or, set,
}
use test_fs.Bytes.{Byte, CInt, neg, is_neg, sub_int, slice, get_int, set_int}
use test_fs.Platform.{Platform, block_size}
use test_fs.World.{Cmd, ◌>>=◌, ◌>>◌, pure, assert, get_fs, set_fs}
use test_fs.Block.{read_blocks, write_blocks}

-- CSUM_TABLE_SIZE
abbrev pub csum_table_size : ℕ
csum_table_size = 60

-- MAX_NR_CSUMS, CSUM_TABLE_SIZE * BLOCK_SIZE / sizeof(int)
abbrev pub max_nr_csums : ℕ
max_nr_csums = 7680

-- -EINVAL
abbrev pub einval : CInt
einval = neg 22

-- The loop of `testfs_calculate_csum`, with `rounds` ints left from int `i` on.
unfoldable pub xor_from : List Byte → (rounds i : ℕ) → (csum : CInt) → CInt
xor_from buf zero i csum = csum
xor_from buf (suc rounds) i csum = xor_from buf rounds (i + 1) (bit_xor csum (get_int buf (4 * i)))

module _ ⦃p : Platform⦄ where
  -- testfs_get_csum; the comparison is unsigned.
  unfoldable pub get_csum : (block_nr : CInt) → Cmd CInt
  get_csum block_nr = do
    s ← get_fs
    pure (if ltb block_nr max_nr_csums then get_int s.csum_table (4 * block_nr) else 0)

  -- testfs_write_csum
  unfoldable pub write_csum : (block_nr : ℕ) → Cmd (Unit {0})
  write_csum block_nr = do
    s ← get_fs
    let nr = block_nr * 4 / block_size
    write_blocks (slice s.csum_table (nr * block_size) block_size) (s.sb.csum_table_start + nr) 1

  -- testfs_put_csum
  unfoldable pub put_csum : (phy_block_nr csum : CInt) → Cmd (Unit {0})
  put_csum phy_block_nr csum = do
    s ← get_fs
    let block_nr = sub_int phy_block_nr s.sb.data_blocks_start
    assert (not (is_neg block_nr) && ltb block_nr max_nr_csums)
    set_fs (record s { csum_table = set_int s.csum_table (4 * block_nr) csum })
    write_csum block_nr

  -- testfs_calculate_csum
  unfoldable pub calculate_csum : List Byte → (size : ℕ) → Cmd CInt
  calculate_csum buf size = do assert (size % 4 == 0); pure (xor_from buf (size / 4) 0 0)

  -- testfs_verify_csum
  unfoldable pub verify_csum : (phy_block_nr : CInt) → Cmd CInt
  verify_csum phy_block_nr = do
    s ← get_fs
    let block_nr = sub_int phy_block_nr s.sb.data_blocks_start
    assert (not (is_neg block_nr) && ltb block_nr max_nr_csums)
    block ← read_blocks phy_block_nr 1
    csum ← calculate_csum block block_size
    pure (if csum == get_int s.csum_table (4 * block_nr) then 0 else einval)

  -- testfs_set_csum
  unfoldable pub set_csum : (phy_block_nr csum : CInt) → Cmd (Unit {0})
  set_csum phy_block_nr csum = do
    s ← get_fs
    let csum_offset = sub_int phy_block_nr s.sb.data_blocks_start
    assert (not (is_neg csum_offset) && ltb csum_offset max_nr_csums)
    let csum_block_nr = csum_offset * 4 / block_size
    assert (ltb csum_block_nr csum_table_size)
    set_fs (record s {
      csum_table = set_int s.csum_table (4 * csum_offset) csum;
      csum_block_dirty = set s.csum_block_dirty csum_block_nr true;
    })

  -- The body of the loop of `testfs_flush_csum`.
  unfoldable pub flush_block : (csum_block_nr : ℕ) → Cmd (Unit {0})
  flush_block csum_block_nr = do
    s ← get_fs
    if get_or s.csum_block_dirty csum_block_nr false
        then (do
          write_blocks (slice s.csum_table (csum_block_nr * block_size) block_size)
              (s.sb.csum_table_start + csum_block_nr) 1
          set_fs (record s { csum_block_dirty = set s.csum_block_dirty csum_block_nr false }))
        else pure tt

  -- That loop, with `rounds` left from `csum_block_nr` on.
  unfoldable pub flush_from : (rounds csum_block_nr : ℕ) → Cmd (Unit {0})
  flush_from zero csum_block_nr = pure tt
  flush_from (suc rounds) csum_block_nr =
      flush_block csum_block_nr >> flush_from rounds (csum_block_nr + 1)

  -- testfs_flush_csum
  unfoldable pub flush_csum : Cmd (Unit {0})
  flush_csum = flush_from csum_table_size 0
