-- ===== src/Super.antt =====
-- src/super.c: the super block on the device and in memory, and the setting up of a file system.
-- The freemaps are in Freemap.antt, the check of a file system in Check.antt.
pub mod Mount
use test_fs.Prelude.{
  ℕ, ◌+◌, ◌*◌, ◌%◌, Bool, true, false, Option, none, some, List, [], ◌∷◌, ◌++◌, ltb, ◌==◌,
  replicate,
}
use test_fs.Bytes.{Byte, CInt, blit, encode_int, get_int, zero_bytes}
use test_fs.Bitmap
use test_fs.Bitmap.{Bitmap, Allocation, allocated, no_space, failed, bits_per_word}
use test_fs.Platform.{Platform, block_size}
use test_fs.World.{
  World, DSuperBlock, tx_none, tx_umount, Cmd, ◌>>=◌, ◌>>◌, pure, assert, non_null, get_fs, set_fs,
  get_state, put_state,
}
use test_fs.Block.{read_blocks, write_blocks, zero_blocks}
use test_fs.Csum.{csum_table_size, max_nr_csums}
use test_fs.Tx
use test_fs.Freemap.{
  super_block_size, inode_freemap_size, block_freemap_size, nr_inode_blocks, nr_data_blocks,
}

-- The bytes of a struct dsuper_block.
unfoldable pub encode_dsuper_block : DSuperBlock → List Byte
encode_dsuper_block d =
    encode_int d.inode_freemap_start
    ++ (encode_int d.block_freemap_start
        ++ (encode_int d.csum_table_start
            ++ (encode_int d.inode_blocks_start
                ++ (encode_int d.data_blocks_start ++ encode_int d.modification_time))))

-- The struct dsuper_block at the start of a block.
unfoldable pub decode_dsuper_block : List Byte → DSuperBlock
decode_dsuper_block b = record {
  inode_freemap_start = get_int b 0;
  block_freemap_start = get_int b 4;
  csum_table_start = get_int b 8;
  inode_blocks_start = get_int b 12;
  data_blocks_start = get_int b 16;
  modification_time = get_int b 20;
}

-- The layout that `testfs_make_super_block` computes.
unfoldable pub new_layout : DSuperBlock
new_layout =
    let inode_freemap = super_block_size in
    let block_freemap = inode_freemap + inode_freemap_size in
    let csum_table = block_freemap + block_freemap_size in
    let inode_blocks = csum_table + csum_table_size in
    record {
      inode_freemap_start = inode_freemap;
      block_freemap_start = block_freemap;
      csum_table_start = csum_table;
      inode_blocks_start = inode_blocks;
      data_blocks_start = inode_blocks + nr_inode_blocks;
      modification_time = 0;
    }

module _ ⦃p : Platform⦄ where
  -- inode_hash_init of src/inode.c: every bucket is empty.
  unfoldable pub inode_hash_init : Cmd (Unit {0})
  inode_hash_init = do w ← get_state; put_state (record w { inode_hash_table = λ _. [] })

  -- testfs_write_super_block
  unfoldable pub write_super_block : Cmd (Unit {0})
  write_super_block = do
    s ← get_fs
    write_blocks (blit (zero_bytes block_size) 0 (encode_dsuper_block s.sb)) 0 1

  -- testfs_make_super_block: the struct comes from `calloc`.
  unfoldable pub make_super_block : Cmd (Unit {0})
  make_super_block = do
    set_fs (record {
      sb = new_layout;
      inode_freemap = none;
      block_freemap = none;
      tx_in_progress = tx_none;
      csum_table = [];
      csum_block_dirty = replicate csum_table_size false;
    })
    write_super_block
    inode_hash_init

  -- testfs_make_inode_freemap
  unfoldable pub make_inode_freemap : Cmd (Unit {0})
  make_inode_freemap = do s ← get_fs; zero_blocks s.sb.inode_freemap_start inode_freemap_size

  -- testfs_make_block_freemap
  unfoldable pub make_block_freemap : Cmd (Unit {0})
  make_block_freemap = do s ← get_fs; zero_blocks s.sb.block_freemap_start block_freemap_size

  -- testfs_make_csum_table
  unfoldable pub make_csum_table : Cmd (Unit {0})
  make_csum_table = do
    s ← get_fs
    assert (ltb nr_data_blocks max_nr_csums)
    zero_blocks s.sb.csum_table_start csum_table_size

  -- testfs_make_inode_blocks
  unfoldable pub make_inode_blocks : Cmd (Unit {0})
  make_inode_blocks = do
    s ← get_fs
    assert (block_size % 32 == 0)
    zero_blocks s.sb.inode_blocks_start nr_inode_blocks

  -- bitmap_create, and the data of the bitmap read from the device.
  unfoldable pub load_freemap : (nbits start nr : ℕ) → Cmd Bitmap
  load_freemap nbits start nr = do
    b ← non_null (Bitmap.made (Bitmap.create true true nbits))
    v ← read_blocks start nr
    pure (record b { v = v })

  -- testfs_init_super_block
  unfoldable pub init_super_block : Cmd CInt
  init_super_block = do
    block ← read_blocks 0 1
    let d = decode_dsuper_block block
    inode_freemap ←
        load_freemap (block_size * inode_freemap_size * bits_per_word) d.inode_freemap_start
          inode_freemap_size
    block_freemap ←
        load_freemap (block_size * block_freemap_size * bits_per_word) d.block_freemap_start
          block_freemap_size
    csum_table ← read_blocks d.csum_table_start csum_table_size
    set_fs (record {
      sb = d;
      inode_freemap = some inode_freemap;
      block_freemap = some block_freemap;
      tx_in_progress = tx_none;
      csum_table = csum_table;
      csum_block_dirty = replicate csum_table_size false;
    })
    inode_hash_init
    pure 0

  -- The loop of inode_hash_destroy in src/inode.c over the buckets below `n`.
  unfoldable pub all_empty : World p.Dev → (n : ℕ) → Bool
  all_empty w ℕ.zero = true
  all_empty w (ℕ.suc n) = elim (w.inode_hash_table n) [ [] ↦ all_empty w n | x ∷ xs ↦ false ]

  -- inode_hash_destroy
  unfoldable pub inode_hash_destroy : Cmd (Unit {0})
  inode_hash_destroy = do w ← get_state; assert (all_empty w 256)

  -- The freemap goes to the device, if it is there.
  unfoldable pub store_freemap : Option Bitmap → (start nr : ℕ) → Cmd (Unit {0})
  store_freemap none start nr = pure tt
  store_freemap (some b) start nr = write_blocks b.v start nr

  -- testfs_flush_super_block
  unfoldable pub flush_super_block : Cmd (Unit {0})
  flush_super_block = do
    Tx.start tx_umount
    write_super_block
    inode_hash_destroy
    s ← get_fs
    store_freemap s.inode_freemap s.sb.inode_freemap_start inode_freemap_size
    set_fs (record s { inode_freemap = none })
    t ← get_fs
    store_freemap t.block_freemap t.sb.block_freemap_start block_freemap_size
    set_fs (record t { block_freemap = none })
    Tx.commit tx_umount
