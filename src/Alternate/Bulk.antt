-- ===== src/Alternate/Bulk.antt =====
-- Writing many inodes at once: the common text of `testfs_bulk_sync_inode` of
-- src/inode_alternate_sync.c and `testfs_bulk_sync_inode_async` of src/inode_alternate_async.c,
-- which differ in how a block is sent to the device. `qsort` of the C library is a parameter; a
-- pointer in the array is the number of its inode.
pub mod Blocks
pub mod Held
pub mod Stored
pub mod Whole
use test_fs.Prelude.{ℕ, ◌+◌, ◌/◌, false, Option, none, some, List, [], ◌∷◌, ◌==◌, if◌then◌else◌}
use test_fs.Bytes.{Byte, CInt, sub_int, blit}
use test_fs.Platform.{Platform}
use test_fs.World.{World, Run, Cmd, ◌>>=◌, ◌>>◌, pure, get_fs}
use test_fs.Block.{read_blocks, write_blocks}
use test_fs.Inode.Table.{
  inodes_per_block, encode_dinode, load_inode, store_inode, inode_to_block_nr,
  inode_to_block_offset,
}

-- inode_compare, on the blocks of two inodes.
unfoldable pub inode_compare : ℕ → ℕ → CInt
inode_compare a b = sub_int (a / inodes_per_block) (b / inodes_per_block)

-- How a command runs beside the blocks that are sent, and how a block is sent.
pub record Channel ⦃p : Platform⦄ (W : Type 0) : Type 1 where
  pub run : {A : Type 0} → Cmd A → W → Run W A
  pub send : List Byte → (block_nr : ℕ) → W → Run W (Unit {0})

module _ ⦃p : Platform⦄ where
  -- The calls of the synchronous form.
  abbrev pub direct : Channel (World p.Dev)
  direct = record { run = λ m. m; send = λ b block_nr. write_blocks b block_nr 1 }

  module _ {W : Type 0} (c : Channel W) where
    -- The body of the loop of step 1.
    unfoldable pub flush_indirect : (nr : ℕ) → W → Run W (Unit {0})
    flush_indirect nr = do
      i ← c.run (load_inode nr)
      if i.indirect_dirty
          then (do
            c.send i.indirect i.din.i_indirect
            c.run (store_inode (record i { indirect_dirty = false })))
          else pure tt

    -- Step 1: the indirect blocks go to the device.
    unfoldable pub flush_indirects : List ℕ → W → Run W (Unit {0})
    flush_indirects [] = pure tt
    flush_indirects (nr ∷ nrs) = flush_indirect nr >> flush_indirects nrs

    -- The block that was built goes to the device; there is none before the first inode.
    unfoldable pub write_current : Option ℕ → List Byte → W → Run W (Unit {0})
    write_current none block = pure tt
    write_current (some cur_block_nr) block = c.send block cur_block_nr

    -- The block `block_nr` as the one that is built. It is read at once in both forms.
    unfoldable pub switch_block :
        Option ℕ → (block : List Byte) → (block_nr : ℕ) → W → Run W (List Byte)
    switch_block none block block_nr = c.run (read_blocks block_nr 1)
    switch_block (some cur_block_nr) block block_nr =
        if block_nr == cur_block_nr
        then pure block
        else do c.send block cur_block_nr; c.run (read_blocks block_nr 1)

    -- The end of the body of the loop of step 3: the dinode goes into the block.
    unfoldable pub copy_into : (nr : ℕ) → (block : List Byte) → W → Run W (List Byte)
    copy_into nr block = do
      offset ← c.run (inode_to_block_offset nr)
      i ← c.run (load_inode nr)
      c.run (store_inode (record i { dirty = false }))
      pure (blit block offset (encode_dinode i.din))

    -- The body of that loop: the number and the content of the block that is built.
    unfoldable pub copy_dinode :
        (nr : ℕ) → Option ℕ → (block : List Byte) → W → Run W (ℕ × List Byte)
    copy_dinode nr cur block = do
      inode_block_nr ← c.run (inode_to_block_nr nr)
      s ← c.run get_fs
      block' ← switch_block cur block (s.sb.inode_blocks_start + inode_block_nr)
      block'' ← copy_into nr block'
      pure (s.sb.inode_blocks_start + inode_block_nr, block'')

    -- Step 3, with the last block.
    unfoldable pub copy_dinodes : List ℕ → Option ℕ → (block : List Byte) → W → Run W (Unit {0})
    copy_dinodes [] cur block = write_current cur block
    copy_dinodes (nr ∷ nrs) cur block = do
      (block_nr, block') ← copy_dinode nr cur block
      copy_dinodes nrs (some block_nr) block'

    -- The common text of the two functions.
    unfoldable pub sync_all :
        (qsort : (ℕ → ℕ → CInt) → List ℕ → List ℕ) → (inodes : List ℕ) → W → Run W (Unit {0})
    sync_all qsort [] = pure tt
    sync_all qsort (nr ∷ nrs) = do
      flush_indirects (nr ∷ nrs)
      copy_dinodes (qsort inode_compare (nr ∷ nrs)) none p.stack

  -- testfs_bulk_sync_inode
  unfoldable pub bulk_sync_inode :
      (qsort : (ℕ → ℕ → CInt) → List ℕ → List ℕ) → (inodes : List ℕ) → Cmd (Unit {0})
  bulk_sync_inode = sync_all direct
