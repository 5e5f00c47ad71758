-- ===== src/Alternate/Flight.antt =====
-- src/inode_alternate_async.c, and the asynchronous flushes of src/csum.c and src/super.c: the
-- writes on a future are in flight until the wait. The device takes them, in an order of its own,
-- when the wait is over; a block is read by the code before a write to it is sent. `memcpy` into
-- the request makes each write a value.
pub mod Order
pub mod Flush
use test_fs.Prelude.{
  ℕ, zero, suc, ◌+◌, ◌*◌, ◌/◌, false, List, [], ◌∷◌, ◌++◌, ltb, not, ◌&&◌, if◌then◌else◌, get_or,
  set,
}
use test_fs.Bytes.{Byte, CInt, is_neg, slice, sub_int, set_int}
use test_fs.Platform.{Platform, block_size}
use test_fs.World.{
  World, Inode, Run, done, aborted, exhausted, Cmd, ◌>>=◌, ◌>>◌, pure, assert, get_fs, set_fs,
  non_null,
}
use test_fs.Csum.{calculate_csum, set_csum, csum_table_size, max_nr_csums}
use test_fs.Freemap.{block_freemap_size}
use test_fs.Alternate.Bulk.{Channel, sync_all}
use test_fs.Alternate.{ReadBlock, WriteBlock, write_plan, block_for_write, file_read_block}

-- A write that is in flight: `nr` blocks from block `start` on.
pub record Write : Type 0 where
  pub blocks : List Byte
  pub start : ℕ
  pub nr : ℕ

-- The world, and the writes that are pending on the future of a caller.
pub record Flight (D : Type 0) : Type 0 where
  pub world : World D
  pub pending : List Write

module _ ⦃p : Platform⦄ where
  -- A command that leaves the future alone.
  abbrev pub lift : {A : Type 0} → Cmd A → Flight p.Dev → Run (Flight p.Dev) A
  lift m f = elim (m f.world) [
    | done a w ↦ done a (record f { world = w })
    | aborted ↦ aborted
    | exhausted ↦ exhausted
  ]

  -- write_blocks_async, as a caller sees it
  unfoldable pub send_write :
      List Byte → (start nr : ℕ) → Flight p.Dev → Run (Flight p.Dev) (Unit {0})
  send_write blocks start nr f = done tt (record f {
    pending = f.pending ++ (record { blocks = blocks; start = start; nr = nr }) ∷ [];
  })

  -- The device takes writes one after the other.
  unfoldable pub complete_all : List Write → World p.Dev → World p.Dev
  complete_all [] w = w
  complete_all (x ∷ xs) w = complete_all xs (record w { dev = p.write w.dev x.start x.nr x.blocks })

  -- spin_wait, where the device takes the pending writes in the given order.
  unfoldable pub wait : (order : List Write → List Write) → Flight p.Dev → World p.Dev
  wait order f = complete_all (order f.pending) f.world

  -- testfs_file_write_block_async
  unfoldable pub file_write_block_async : WriteBlock (Flight p.Dev)
  file_write_block_async i log_block_nr buf = do
    (phy_block_nr, i') ← lift (block_for_write i log_block_nr)
    if is_neg phy_block_nr then pure (phy_block_nr, i') else (do
      send_write buf phy_block_nr 1
      csum ← lift (calculate_csum buf block_size)
      lift (set_csum phy_block_nr csum)
      pure (0, i'))

  -- testfs_file_read_block_async: the block is read when its request is served, before the wait
  -- on `head_tail_f`, and so before this call sends a write to it. That the writes of earlier calls
  -- to the block are over is taken for granted, as for the callers in the repository.
  unfoldable pub file_read_block_async : ReadBlock (Flight p.Dev)
  file_read_block_async i log_block_nr = lift (file_read_block i log_block_nr)

  -- testfs_write_data_alternate_async
  unfoldable pub write_data_alternate_async :
      Inode → (start : ℕ) → List Byte → Flight p.Dev → Run (Flight p.Dev) (CInt × Inode)
  write_data_alternate_async = write_plan file_read_block_async file_write_block_async p.stack

  -- testfs_put_csum_async
  unfoldable pub put_csum_async :
      (phy_block_nr csum : CInt) → Flight p.Dev → Run (Flight p.Dev) (Unit {0})
  put_csum_async phy_block_nr csum = do
    s ← lift get_fs
    let block_nr = sub_int phy_block_nr s.sb.data_blocks_start
    assert (not (is_neg block_nr) && ltb block_nr max_nr_csums)
    let table = set_int s.csum_table (4 * block_nr) csum
    let nr = block_nr * 4 / block_size
    lift (set_fs (record s { csum_table = table }))
    send_write (slice table (nr * block_size) block_size) (s.sb.csum_table_start + nr) 1

  -- The body of the loop of `testfs_flush_csum_async`, and the loop.
  unfoldable pub flush_block_async :
      (csum_block_nr : ℕ) → Flight p.Dev → Run (Flight p.Dev) (Unit {0})
  flush_block_async csum_block_nr = do
    s ← lift get_fs
    if get_or s.csum_block_dirty csum_block_nr false
        then (do
          send_write (slice s.csum_table (csum_block_nr * block_size) block_size)
              (s.sb.csum_table_start + csum_block_nr) 1
          lift
              (set_fs (record s { csum_block_dirty = set s.csum_block_dirty csum_block_nr false })))
        else pure tt

  unfoldable pub flush_from_async :
      (rounds csum_block_nr : ℕ) → Flight p.Dev → Run (Flight p.Dev) (Unit {0})
  flush_from_async zero csum_block_nr = pure tt
  flush_from_async (suc rounds) csum_block_nr =
      flush_block_async csum_block_nr >> flush_from_async rounds (csum_block_nr + 1)

  -- testfs_flush_csum_async
  unfoldable pub flush_csum_async : Flight p.Dev → Run (Flight p.Dev) (Unit {0})
  flush_csum_async = flush_from_async csum_table_size 0

  -- testfs_flush_block_freemap_async of src/super.c
  unfoldable pub flush_block_freemap_async : Flight p.Dev → Run (Flight p.Dev) (Unit {0})
  flush_block_freemap_async = do
    s ← lift get_fs
    b ← non_null s.block_freemap
    send_write b.v s.sb.block_freemap_start block_freemap_size

  -- The calls of `testfs_bulk_sync_inode_async`, with the writes on the future of its caller.
  abbrev pub deferred : Channel (Flight p.Dev)
  deferred = record { run = lift; send = λ b block_nr. send_write b block_nr 1 }

  -- testfs_bulk_sync_inode_async
  unfoldable pub bulk_sync_inode_async :
      (qsort : (ℕ → ℕ → CInt) → List ℕ → List ℕ)
      → (inodes : List ℕ) → Flight p.Dev
      → Run (Flight p.Dev) (Unit {0})
  bulk_sync_inode_async = sync_all deferred
