-- ===== src/Inode/Table/Sync.antt =====
-- An inode that is synced, put and got again: `testfs_sync_inode`, `testfs_put_inode` and
-- `testfs_get_inode` of src/inode.c.
use test_fs.Prelude.{
  ℕ, ◌+◌, ◌*◌, ◌/◌, ◌%◌, ◌≤◌, ◌<◌, ◌≡◌, refl, ◌∙◌, ap, true, false, some, none, List, ◌∷◌, arith,
  length, lt→ltb, eq→==,
}
use test_fs.Bytes.{Byte, blit, zero_bytes}
use test_fs.Bytes.Laws.{length-blit}
use test_fs.Platform.{Platform}
use test_fs.World.{World, Inode, done}
use test_fs.Block.{read_blocks, write_blocks}
use test_fs.Block.Laws.{block_at, length-block_at}
use test_fs.Inode.Table.{
  encode_dinode, decode_dinode, find_in, remove_from, replace_in, hash_fn, update_chain, hash_find,
  hash_insert, hash_remove, hash_replace, load_inode, store_inode, inode_to_block_nr,
  inode_to_block_offset, read_inode_block, write_inode_block, fetch_inode, get_inode, sync_indirect,
  sync_inode, put_inode,
}
use test_fs.Inode.Table.Dinode.{
  IsDinode, decode-encode_dinode, length-encode_dinode, find_in-replace_in, remove_from-replace_in,
}

module _ ⦃p : Platform⦄ where
  pub hash_find-update_chain :
      (nr : ℕ) (f : List Inode → List Inode) (w : World p.Dev)
      → hash_find nr (update_chain nr f w) ≡ find_in nr (f (w.inode_hash_table (hash_fn nr)))
  unfolding hash_find update_chain
  hash_find-update_chain nr f w = rw (eq→== (hash_fn nr) (hash_fn nr) refl)

  pub load_inode-run :
      (w : World p.Dev) (nr : ℕ) {i : Inode} → hash_find nr w ≡ some i → load_inode nr w ≡ done i w
  unfolding load_inode
  load_inode-run w nr h = rw (h, load_inode)

  -- The block of an inode, and its place there.
  abbrev inode_block : World p.Dev → ℕ → ℕ
  inode_block w nr = w.fs.sb.inode_blocks_start + nr / 16

  abbrev synced_block : World p.Dev → Inode → List Byte
  synced_block w i =
      blit (block_at w (inode_block w i.i_nr)) (i.i_nr % 16 * 32) (encode_dinode i.din)

  abbrev synced : World p.Dev → Inode → World p.Dev
  synced w i =
      hash_replace (record i { dirty = false })
        (record w { dev = p.write w.dev (inode_block w i.i_nr) 1 (synced_block w i) })

  sync_inode-run :
      (w : World p.Dev) (i : Inode)
      → hash_find i.i_nr w ≡ some i
      → i.dirty ≡ true
      → i.indirect_dirty ≡ false
      → i.i_nr < 2048
      → sync_inode i.i_nr w ≡ done tt (synced w i)
  unfolding sync_inode read_inode_block inode_to_block_nr inode_to_block_offset write_inode_block
      read_blocks write_blocks sync_indirect store_inode
  sync_inode-run w i here dirty loaded low = rw (
    load_inode-run w i.i_nr here,
    dirty,
    lt→ltb (i.i_nr / 16) 128 (omega arith),
    lt→ltb (i.i_nr % 16 * 32) 512 (omega arith),
    loaded,
  )

  hash_find-synced :
      (w : World p.Dev) (i : Inode)
      → hash_find i.i_nr w ≡ some i
      → hash_find i.i_nr (synced w i) ≡ some (record i { dirty = false })
  unfolding hash_replace hash_find
  hash_find-synced w i here =
      hash_find-update_chain i.i_nr (replace_in (record i { dirty = false }))
        (record w { dev = p.write w.dev (inode_block w i.i_nr) 1 (synced_block w i) })
      ∙ find_in-replace_in (w.inode_hash_table (hash_fn i.i_nr)) i.i_nr (record i { dirty = false })
          refl here

  put_inode-run :
      (w : World p.Dev) (i : Inode)
      → hash_find i.i_nr w ≡ some i
      → i.dirty ≡ false
      → i.i_count ≡ 1
      → put_inode i.i_nr w ≡ done tt (hash_remove i.i_nr w)
  unfolding put_inode store_inode
  put_inode-run w i here clean last = rw (load_inode-run w i.i_nr here, clean, last)

  -- What `testfs_get_inode` reads for an inode that is not in memory.
  abbrev fetched : World p.Dev → ℕ → Inode
  fetched w nr = record {
    dirty = false;
    indirect_dirty = false;
    indirect_loaded = false;
    din = decode_dinode (block_at w (inode_block w nr)) (nr % 16 * 32);
    i_nr = nr;
    i_count = 1;
    indirect = zero_bytes 512;
  }

  get_inode-run :
      (w : World p.Dev) (nr : ℕ)
      → hash_find nr w ≡ none
      → nr < 2048
      → get_inode nr w ≡ done nr (hash_insert (fetched w nr) w)
  unfolding get_inode fetch_inode read_inode_block inode_to_block_nr inode_to_block_offset
      read_blocks
  get_inode-run w nr absent low = rw (
    absent,
    get_inode,
    lt→ltb (nr / 16) 128 (omega arith),
    lt→ltb (nr % 16 * 32) 512 (omega arith),
  )

  hash_find-fetched :
      (w : World p.Dev) (nr : ℕ) → hash_find nr (hash_insert (fetched w nr) w) ≡ some (fetched w nr)
  unfolding hash_insert find_in
  hash_find-fetched w nr =
      hash_find-update_chain nr (λ chain. fetched w nr ∷ chain) w ∙ rw (eq→== nr nr refl)

  evicted-absent :
      (w : World p.Dev) (i : Inode)
      → find_in i.i_nr (remove_from i.i_nr (w.inode_hash_table (hash_fn i.i_nr))) ≡ none
      → hash_find i.i_nr (hash_remove i.i_nr (synced w i)) ≡ none
  unfolding hash_remove hash_replace update_chain
  evicted-absent w i once =
      hash_find-update_chain i.i_nr (remove_from i.i_nr) (synced w i)
      ∙ rw (eq→== (hash_fn i.i_nr) (hash_fn i.i_nr) refl) (
          ap (find_in i.i_nr) (
            remove_from-replace_in (w.inode_hash_table (hash_fn i.i_nr)) i.i_nr
              (record i { dirty = false }) refl)
          ∙ once)

  evicted-din :
      (w : World p.Dev) (i : Inode)
      → IsDinode i.din
      → (fetched (hash_remove i.i_nr (synced w i)) i.i_nr).din ≡ i.din
  unfolding hash_remove hash_replace update_chain encode_dinode
  evicted-din w i d =
      ap (λ b. decode_dinode b (i.i_nr % 16 * 32))
        (p.read-write_self w.dev (inode_block w i.i_nr) (synced_block w i) (
          length-blit (block_at w (inode_block w i.i_nr)) (i.i_nr % 16 * 32) (encode_dinode i.din)
            fits
          ∙ length-block_at w (inode_block w i.i_nr)))
      ∙ decode-encode_dinode i.din (block_at w (inode_block w i.i_nr)) (i.i_nr % 16 * 32) d
          (omega (arith, length-block_at w (inode_block w i.i_nr)))
    where
      fits :
          i.i_nr % 16 * 32 + length (encode_dinode i.din)
          ≤ length (block_at w (inode_block w i.i_nr))
      fits = omega (arith, length-encode_dinode i.din d, length-block_at w (inode_block w i.i_nr))

  -- A dirty inode that has one user, is in the table once and has no change to its indirect block
  -- is written by `testfs_sync_inode` and dropped from the table by `testfs_put_inode`; when
  -- `testfs_get_inode` then reads it from the device, its dinode is the same.
  pub get_inode-sync_inode :
      (w : World p.Dev) (i : Inode)
      → hash_find i.i_nr w ≡ some i
      → find_in i.i_nr (remove_from i.i_nr (w.inode_hash_table (hash_fn i.i_nr))) ≡ none
      → IsDinode i.din
      → i.dirty ≡ true
      → i.indirect_dirty ≡ false
      → i.i_count ≡ 1
      → i.i_nr < 2048
      → (v : World p.Dev) × (u : World p.Dev) × (z : World p.Dev) × (j : Inode) × (sync_inode i.i_nr
            w
          ≡ done tt v)
        × (put_inode i.i_nr v ≡ done tt u)
        × (hash_find i.i_nr u ≡ none)
        × (get_inode i.i_nr u ≡ done i.i_nr z)
        × (hash_find i.i_nr z ≡ some j)
        × (j.din ≡ i.din)
  get_inode-sync_inode w i here once d dirty loaded last low =
      let v = synced w i in
      let u = hash_remove i.i_nr v in
      (
        v,
        u,
        hash_insert (fetched u i.i_nr) u,
        fetched u i.i_nr,
        sync_inode-run w i here dirty loaded low,
        put_inode-run v (record i { dirty = false }) (hash_find-synced w i here) refl last,
        evicted-absent w i once,
        get_inode-run u i.i_nr (evicted-absent w i once) low,
        hash_find-fetched u i.i_nr,
        evicted-din w i d,
      )
