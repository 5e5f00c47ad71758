-- ===== src/Super/Mount.antt =====
-- `testfs_flush_super_block` and then `testfs_init_super_block` of src/super.c: a file system that
-- is unmounted and mounted.
use test_fs.Prelude.{
  ℕ, zero, suc, ◌+◌, ◌*◌, ◌^◌, ◌≤◌, ◌<◌, ◌≡◌, refl, sym, ◌∙◌, ap, ap₂, ◌⊎◌, inl, inr, true, false,
  some, none, List, [], ◌++◌, arith, length, replicate,
}
use test_fs.Bytes.{Byte, get_int, blit, zero_bytes}
use test_fs.Bytes.Laws.{int_digits, length-blit, length-zero_bytes}
use test_fs.Bitmap.{Bitmap}
use test_fs.Bitmap.Valid.{IsValid}
use test_fs.Bitmap.Create.{create-IsFresh}
use test_fs.Platform.{Platform}
use test_fs.World.{World, DSuperBlock, done, tx_none}
use test_fs.Block.{read_blocks, write_blocks}
use test_fs.Block.Laws.{read-write_outside, read-write_blocks}
use test_fs.Tx
use test_fs.Super.{
  encode_dsuper_block, decode_dsuper_block, write_super_block, inode_hash_init, load_freemap,
  init_super_block, all_empty, inode_hash_destroy, store_freemap, flush_super_block,
}

-- The areas of the device in order, as `testfs_make_super_block` lays them out.
pub record IsLayout (d : DSuperBlock) : Type 0 where
  pub after_super_block : 1 ≤ d.inode_freemap_start
  pub after_inode_freemap : d.inode_freemap_start + 1 ≤ d.block_freemap_start
  pub after_block_freemap : d.block_freemap_start + 2 ≤ d.csum_table_start
  pub after_csums : d.csum_table_start + 60 ≤ d.inode_blocks_start
  pub after_inodes : d.inode_blocks_start + 128 ≤ d.data_blocks_start
  pub small : d.data_blocks_start < 2 ^ 31
  pub time : d.modification_time < 2 ^ 32

-- The block that holds the super block.
abbrev super_block_bytes : DSuperBlock → List Byte
super_block_bytes d = blit (zero_bytes 512) 0 (encode_dsuper_block d)

decode-encode_dsuper_block :
    (d : DSuperBlock) → IsLayout d → decode_dsuper_block (super_block_bytes d) ≡ d
unfolding decode_dsuper_block encode_dsuper_block blit get_int
decode-encode_dsuper_block d l = λ i. record {
  inode_freemap_start =
      int_digits d.inode_freemap_start
        (omega (
          arith, l.after_inode_freemap, l.after_block_freemap, l.after_csums, l.after_inodes,
          l.small,
        ))
        i;
  block_freemap_start =
      int_digits d.block_freemap_start
        (omega (arith, l.after_block_freemap, l.after_csums, l.after_inodes, l.small)) i;
  csum_table_start =
      int_digits d.csum_table_start (omega (arith, l.after_csums, l.after_inodes, l.small)) i;
  inode_blocks_start = int_digits d.inode_blocks_start (omega (arith, l.after_inodes, l.small)) i;
  data_blocks_start = int_digits d.data_blocks_start (omega (arith, l.small)) i;
  modification_time = int_digits d.modification_time l.time i;
}

length-super_block_bytes : (d : DSuperBlock) → length (super_block_bytes d) ≡ 512
unfolding encode_dsuper_block
length-super_block_bytes d =
    length-blit (zero_bytes 512) 0 (encode_dsuper_block d) (omega (arith, length-zero_bytes 512))
    ∙ length-zero_bytes 512

module _ ⦃p : Platform⦄ where
  -- Blocks beside those that are written.
  read-write_apart :
      (d : p.Dev) (start nr : ℕ) (b : List Byte) (o m : ℕ)
      → (o + m ≤ start) ⊎ (start + nr ≤ o)
      → p.read (p.write d start nr b) o m ≡ p.read d o m
  read-write_apart d start nr b o zero out = p.read-zero _ o ∙ sym (p.read-zero d o)
  read-write_apart d start nr b o (suc m) out =
      p.read-suc (p.write d start nr b) o m
      ∙ ap₂ ◌++◌ (read-write_outside d start nr b o (one out))
          (read-write_apart d start nr b (o + 1) m (rest out))
      ∙ sym (p.read-suc d o m)
    where
      one : (o + suc m ≤ start) ⊎ (start + nr ≤ o) → (o < start) ⊎ (start + nr ≤ o)
      one (inl l) = inl (omega arith)
      one (inr g) = inr g

      rest : (o + suc m ≤ start) ⊎ (start + nr ≤ o) → (o + 1 + m ≤ start) ⊎ (start + nr ≤ o + 1)
      rest (inl l) = inl (omega arith)
      rest (inr g) = inr (omega arith)

  -- What mounting finds: the layout, both freemaps and the table of checksums as they were before,
  -- no transaction and no inode in memory; the data blocks and the inodes are untouched.
  pub record Mounted (w u : World p.Dev) : Type 0 where
    pub sb : u.fs.sb ≡ w.fs.sb
    pub inode_freemap : u.fs.inode_freemap ≡ w.fs.inode_freemap
    pub block_freemap : u.fs.block_freemap ≡ w.fs.block_freemap
    pub csum_table : u.fs.csum_table ≡ p.read w.dev w.fs.sb.csum_table_start 60
    pub idle : u.fs.tx_in_progress ≡ tx_none
    pub empty : (n : ℕ) → u.inode_hash_table n ≡ []
    pub kept : (o m : ℕ) → w.fs.sb.csum_table_start ≤ o → p.read u.dev o m ≡ p.read w.dev o m

  abbrev stored : World p.Dev → (inodes blocks : Bitmap) → p.Dev
  stored w inodes blocks =
      p.write
        (p.write (p.write w.dev 0 1 (super_block_bytes w.fs.sb)) w.fs.sb.inode_freemap_start 1
          inodes.v)
        w.fs.sb.block_freemap_start 2 blocks.v

  abbrev flushed : World p.Dev → (inodes blocks : Bitmap) → World p.Dev
  flushed w inodes blocks = record w {
    dev = stored w inodes blocks;
    fs = record w.fs { inode_freemap = none; block_freemap = none; tx_in_progress = tx_none };
  }

  flush_super_block-flushed :
      (w : World p.Dev) (inodes blocks : Bitmap)
      → w.fs.tx_in_progress ≡ tx_none
      → all_empty w 256 ≡ true
      → w.fs.inode_freemap ≡ some inodes
      → w.fs.block_freemap ≡ some blocks
      → flush_super_block w ≡ done tt (flushed w inodes blocks)
  unfolding flush_super_block Tx.start Tx.commit write_super_block inode_hash_destroy store_freemap
      write_blocks all_empty
  flush_super_block-flushed w inodes blocks idle empty here there = rw (idle, empty, here, there)

  load_freemap-run :
      (v : World p.Dev) (b : Bitmap) (start nr : ℕ)
      → p.read v.dev start nr ≡ b.v
      → b.nbits + 7 < 2 ^ 32
      → load_freemap b.nbits start nr v ≡ done b v
  unfolding load_freemap read_blocks
  load_freemap-run v b start nr e small =
      let (c, made, f, _, _) = create-IsFresh true true b.nbits small in
      rw (made) (λ i. done (record { nbits = f.size i; v = e i }) v)

  abbrev mounted : World p.Dev → (inodes blocks : Bitmap) → List Byte → World p.Dev
  mounted v inodes blocks csums = record v {
    fs = record {
      sb = v.fs.sb;
      inode_freemap = some inodes;
      block_freemap = some blocks;
      tx_in_progress = tx_none;
      csum_table = csums;
      csum_block_dirty = replicate 60 false;
    };
    inode_hash_table = λ _. [];
  }

  init_super_block-run :
      (v : World p.Dev) (inodes blocks : Bitmap)
      → decode_dsuper_block (p.read v.dev 0 1) ≡ v.fs.sb
      → inodes.nbits ≡ 4096
      → blocks.nbits ≡ 8192
      → p.read v.dev v.fs.sb.inode_freemap_start 1 ≡ inodes.v
      → p.read v.dev v.fs.sb.block_freemap_start 2 ≡ blocks.v
      → init_super_block v
        ≡ done 0 (mounted v inodes blocks (p.read v.dev v.fs.sb.csum_table_start 60))
  unfolding init_super_block inode_hash_init read_blocks
  init_super_block-run v inodes blocks super_block size_i size_b got_i got_b = rw (
    super_block,
    ← size_i,
    load_freemap-run v inodes v.fs.sb.inode_freemap_start 1 got_i (omega (arith, size_i)),
    ← size_b,
    load_freemap-run v blocks v.fs.sb.block_freemap_start 2 got_b (omega (arith, size_b)),
  )

  module _ (w : World p.Dev) {inodes blocks : Bitmap} (l : IsLayout w.fs.sb)
      (valid_i : IsValid inodes) (size_i : inodes.nbits ≡ 4096) (valid_b : IsValid blocks)
      (size_b : blocks.nbits ≡ 8192) where
    length-inodes : length inodes.v ≡ 1 * 512
    length-inodes = omega (arith, valid_i.words, size_i)

    length-blocks : length blocks.v ≡ 2 * 512
    length-blocks = omega (arith, valid_b.words, size_b)

    abbrev first : p.Dev
    first = p.write w.dev 0 1 (super_block_bytes w.fs.sb)

    abbrev second : p.Dev
    second = p.write first w.fs.sb.inode_freemap_start 1 inodes.v

    read_stored-super_block : decode_dsuper_block (p.read (stored w inodes blocks) 0 1) ≡ w.fs.sb
    read_stored-super_block =
        ap decode_dsuper_block (
          read-write_apart second w.fs.sb.block_freemap_start 2 blocks.v 0 1
            (inl (omega (arith, l.after_super_block, l.after_inode_freemap)))
          ∙ read-write_apart first w.fs.sb.inode_freemap_start 1 inodes.v 0 1
              (inl (omega (arith, l.after_super_block)))
          ∙ read-write_blocks w.dev 0 1 (super_block_bytes w.fs.sb)
              (length-super_block_bytes w.fs.sb))
        ∙ decode-encode_dsuper_block w.fs.sb l

    read_stored-inodes : p.read (stored w inodes blocks) w.fs.sb.inode_freemap_start 1 ≡ inodes.v
    read_stored-inodes =
        read-write_apart second w.fs.sb.block_freemap_start 2 blocks.v w.fs.sb.inode_freemap_start 1
          (inl (omega (arith, l.after_inode_freemap)))
        ∙ read-write_blocks first w.fs.sb.inode_freemap_start 1 inodes.v length-inodes

    -- Behind the freemaps nothing is written.
    read_stored-rest :
        (o m : ℕ)
        → w.fs.sb.csum_table_start ≤ o
        → p.read (stored w inodes blocks) o m ≡ p.read w.dev o m
    read_stored-rest o m h =
        read-write_apart second w.fs.sb.block_freemap_start 2 blocks.v o m
          (inr (omega (arith, l.after_block_freemap)))
        ∙ read-write_apart first w.fs.sb.inode_freemap_start 1 inodes.v o m
            (inr (omega (arith, l.after_inode_freemap, l.after_block_freemap)))
        ∙ read-write_apart w.dev 0 1 (super_block_bytes w.fs.sb) o m
            (inr (omega (arith, l.after_super_block, l.after_inode_freemap, l.after_block_freemap)))

    -- With no transaction in progress and no inode in memory, `testfs_flush_super_block` succeeds
    -- on a file system in order, and `testfs_init_super_block` then brings back the layout and both
    -- freemaps, takes the checksums from the device, and leaves all behind the freemaps untouched.
    pub init_super_block-flush_super_block :
        w.fs.tx_in_progress ≡ tx_none
        → all_empty w 256 ≡ true
        → w.fs.inode_freemap ≡ some inodes
        → w.fs.block_freemap ≡ some blocks
        → (v : World p.Dev) × (u : World p.Dev) × (flush_super_block w ≡ done tt v)
          × (init_super_block v ≡ done 0 u)
          × Mounted w u
    init_super_block-flush_super_block idle empty here there =
        let v = flushed w inodes blocks in
        (
          v,
          mounted v inodes blocks (p.read v.dev w.fs.sb.csum_table_start 60),
          flush_super_block-flushed w inodes blocks idle empty here there,
          init_super_block-run v inodes blocks read_stored-super_block size_i size_b
              read_stored-inodes
              (read-write_blocks second w.fs.sb.block_freemap_start 2 blocks.v length-blocks),
          record {
            sb = refl;
            inode_freemap = sym here;
            block_freemap = sym there;
            csum_table = read_stored-rest w.fs.sb.csum_table_start 60 (omega arith);
            idle = refl;
            empty = λ n. refl;
            kept = read_stored-rest;
          },
        )
