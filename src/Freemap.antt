-- ===== src/Freemap.antt =====
-- The two freemaps of src/super.c: a bitmap in memory, written through to the device.
pub mod Blocks
use test_fs.Prelude.{
  ℕ, ◌+◌, ◌*◌, ◌/◌, ◌%◌, ◌≡◌, Bool, true, false, Option, none, some, List, [], ◌∷◌, ◌++◌, not, leb,
  ltb, ◌==◌, if◌then◌else◌, replicate,
}
use test_fs.Bytes.{Byte, CInt, neg, is_neg, sub_int, slice, blit, encode_int, get_int, zero_bytes}
use test_fs.Bitmap
use test_fs.Bitmap.{Bitmap, Allocation, allocated, no_space, failed, bits_per_word}
use test_fs.Platform.{Platform, block_size}
use test_fs.World.{
  World, DSuperBlock, SuperBlock, tx_none, tx_umount, Cmd, ◌>>=◌, ◌>>◌, pure, abort, assert,
  non_null, get_fs, set_fs, get_state, put_state,
}
use test_fs.Block.{read_blocks, write_blocks, zero_blocks}

-- The sizes of include/testfs.h, in blocks.
abbrev pub super_block_size : ℕ
super_block_size = 1

abbrev pub inode_freemap_size : ℕ
inode_freemap_size = 1

abbrev pub block_freemap_size : ℕ
block_freemap_size = 2

abbrev pub nr_inode_blocks : ℕ
nr_inode_blocks = 128

abbrev pub nr_data_blocks : ℕ
nr_data_blocks = 512

-- -ENOSPC
abbrev pub enospc : CInt
enospc = neg 28

module _ ⦃p : Platform⦄ where
  -- testfs_write_inode_freemap
  unfoldable pub write_inode_freemap : (inode_nr : ℕ) → Cmd (Unit {0})
  write_inode_freemap inode_nr = do
    s ← get_fs
    b ← non_null s.inode_freemap
    let nr = inode_nr / (block_size * bits_per_word)
    write_blocks (slice b.v (nr * block_size) block_size) (s.sb.inode_freemap_start + nr) 1

  -- testfs_write_block_freemap
  unfoldable pub write_block_freemap : (block_nr : ℕ) → Cmd (Unit {0})
  write_block_freemap block_nr = do
    s ← get_fs
    b ← non_null s.block_freemap
    let nr = block_nr / (block_size * bits_per_word)
    write_blocks (slice b.v (nr * block_size) block_size) (s.sb.block_freemap_start + nr) 1

  -- What `testfs_get_block_freemap` makes of an allocation.
  unfoldable pub take_block : Allocation → Cmd CInt
  take_block failed = abort
  take_block no_space = pure enospc
  take_block (allocated index b) = do
    s ← get_fs
    set_fs (record s { block_freemap = some b })
    write_block_freemap index
    pure index

  -- testfs_get_block_freemap
  unfoldable pub get_block_freemap : Cmd CInt
  get_block_freemap = do s ← get_fs; b ← non_null s.block_freemap; take_block (Bitmap.alloc b)

  -- testfs_put_block_freemap
  unfoldable pub put_block_freemap : (block_nr : ℕ) → Cmd (Unit {0})
  put_block_freemap block_nr = do
    s ← get_fs
    b ← non_null s.block_freemap
    c ← non_null (Bitmap.unmark b block_nr)
    set_fs (record s { block_freemap = some c })
    write_block_freemap block_nr

  -- What `testfs_get_inode_freemap` makes of an allocation.
  unfoldable pub take_inode : Allocation → Cmd CInt
  take_inode failed = abort
  take_inode no_space = pure enospc
  take_inode (allocated index b) = do
    s ← get_fs
    set_fs (record s { inode_freemap = some b })
    write_inode_freemap index
    pure index

  -- testfs_get_inode_freemap
  unfoldable pub get_inode_freemap : Cmd CInt
  get_inode_freemap = do s ← get_fs; b ← non_null s.inode_freemap; take_inode (Bitmap.alloc b)

  -- testfs_put_inode_freemap
  unfoldable pub put_inode_freemap : (inode_nr : ℕ) → Cmd (Unit {0})
  put_inode_freemap inode_nr = do
    s ← get_fs
    b ← non_null s.inode_freemap
    c ← non_null (Bitmap.unmark b inode_nr)
    set_fs (record s { inode_freemap = some c })
    write_inode_freemap inode_nr

  -- testfs_alloc_block: the number, and what the caller's buffer holds.
  unfoldable pub alloc_block : List Byte → Cmd (CInt × List Byte)
  alloc_block block = do
    phy_block_nr ← get_block_freemap
    s ← get_fs
    pure (
        if is_neg phy_block_nr
        then (phy_block_nr, block)
        else (s.sb.data_blocks_start + phy_block_nr, zero_bytes block_size))

  -- testfs_free_block
  unfoldable pub free_block : (block_nr : CInt) → Cmd (Unit {0})
  free_block block_nr = do
    zero_blocks block_nr 1
    s ← get_fs
    let nr = sub_int block_nr s.sb.data_blocks_start
    assert (not (is_neg nr))
    put_block_freemap nr

  -- What `testfs_alloc_block_alternate` makes of an allocation: the device is left behind.
  unfoldable pub take_block_alternate : Allocation → Cmd CInt
  take_block_alternate failed = abort
  take_block_alternate no_space = pure enospc
  take_block_alternate (allocated index b) = do
    s ← get_fs
    set_fs (record s { block_freemap = some b })
    pure (s.sb.data_blocks_start + index)

  -- testfs_alloc_block_alternate
  unfoldable pub alloc_block_alternate : Cmd CInt
  alloc_block_alternate = do
    s ← get_fs
    b ← non_null s.block_freemap
    take_block_alternate (Bitmap.alloc b)

  -- testfs_flush_block_freemap
  unfoldable pub flush_block_freemap : Cmd (Unit {0})
  flush_block_freemap = do
    s ← get_fs
    b ← non_null s.block_freemap
    write_blocks b.v s.sb.block_freemap_start block_freemap_size
