-- ===== src/Inode/Table.antt =====
-- The in-memory inodes of src/inode.c: the hash table, reference counts, and the inode blocks on
-- the device. The chains are the hlists of include/list.h, as lists with the newest first.
pub mod Dinode
pub mod Sync
use test_fs.Prelude.{
  ℕ, ◌+◌, ◌*◌, ◌/◌, ◌%◌, true, false, Option, none, some, List, [], ◌∷◌, ◌++◌, not, ltb, ◌==◌,
  if◌then◌else◌,
}
use test_fs.Bytes.{Byte, CInt, is_neg, sub_int, blit, encode_int, get_int, zero_bytes}
use test_fs.Platform.{Platform, block_size}
use test_fs.World.{
  World, DInode, Inode, Cmd, ◌>>=◌, ◌>>◌, pure, abort, assert, get_fs, get_state, put_state,
}
use test_fs.Block.{read_blocks, write_blocks}
use test_fs.Freemap.{nr_inode_blocks, get_inode_freemap, put_inode_freemap}
use test_fs.Inode.Truncate.{truncate_data}

-- sizeof(struct dinode), and INODES_PER_BLOCK
abbrev pub sizeof_dinode : ℕ
sizeof_dinode = 32

abbrev pub inodes_per_block : ℕ
inodes_per_block = 16

abbrev pub encode_ints : List CInt → List Byte
encode_ints [] = []
encode_ints (x ∷ xs) = encode_int x ++ encode_ints xs

-- The bytes of a struct dinode.
unfoldable pub encode_dinode : DInode → List Byte
encode_dinode d =
    encode_ints (d.i_type ∷ d.i_size ∷ d.i_mod_time ∷ (d.i_block_nr ++ (d.i_indirect ∷ [])))

-- The struct dinode at byte offset `off` of a block.
unfoldable pub decode_dinode : List Byte → ℕ → DInode
decode_dinode b off = record {
  i_type = get_int b off;
  i_size = get_int b (off + 4);
  i_mod_time = get_int b (off + 8);
  i_block_nr =
      get_int b (off + 12)
      ∷ get_int b (off + 16)
      ∷ get_int b (off + 20)
      ∷ get_int b (off + 24)
      ∷ [];
  i_indirect = get_int b (off + 28);
}

-- What `bzero` and `calloc` leave.
abbrev pub zero_dinode : DInode
zero_dinode = record {
  i_type = 0;
  i_size = 0;
  i_mod_time = 0;
  i_block_nr = 0 ∷ 0 ∷ 0 ∷ 0 ∷ [];
  i_indirect = 0;
}

-- The loop of `inode_hash_find` over a chain; there is one super block.
unfoldable pub find_in : ℕ → List Inode → Option Inode
find_in nr [] = none
find_in nr (i ∷ chain) = if i.i_nr == nr then some i else find_in nr chain

-- hlist_del: the node of an inode leaves its chain.
unfoldable pub remove_from : ℕ → List Inode → List Inode
remove_from nr [] = []
remove_from nr (i ∷ chain) = if i.i_nr == nr then chain else i ∷ remove_from nr chain

-- An assignment through a pointer to the inode.
unfoldable pub replace_in : Inode → List Inode → List Inode
replace_in i [] = []
replace_in i (j ∷ chain) = if j.i_nr == i.i_nr then i ∷ chain else j ∷ replace_in i chain

module _ ⦃p : Platform⦄ where
  -- inode_hashfn
  abbrev pub hash_fn : ℕ → ℕ
  hash_fn nr = p.hash_int nr 8

  -- One bucket of the table, changed.
  unfoldable pub update_chain : ℕ → (List Inode → List Inode) → World p.Dev → World p.Dev
  update_chain nr f w = record w {
    inode_hash_table =
        λ n. if n == hash_fn nr then f (w.inode_hash_table n) else w.inode_hash_table n;
  }

  -- inode_hash_find
  unfoldable pub hash_find : ℕ → World p.Dev → Option Inode
  hash_find nr w = find_in nr (w.inode_hash_table (hash_fn nr))

  -- inode_hash_insert
  unfoldable pub hash_insert : Inode → World p.Dev → World p.Dev
  hash_insert i = update_chain i.i_nr (λ chain. i ∷ chain)

  -- inode_hash_remove
  unfoldable pub hash_remove : ℕ → World p.Dev → World p.Dev
  hash_remove nr = update_chain nr (remove_from nr)

  -- What a pointer to an inode points at, and an assignment through it.
  unfoldable pub hash_replace : Inode → World p.Dev → World p.Dev
  hash_replace i = update_chain i.i_nr (replace_in i)

  unfoldable pub load_inode : ℕ → Cmd Inode
  load_inode nr w = elim (hash_find nr w) [ none ↦ abort w | some i ↦ pure i w ]

  unfoldable pub store_inode : Inode → Cmd (Unit {0})
  store_inode i w = pure tt (hash_replace i w)

  -- A function of Inode.antt on the inode that a pointer points at.
  unfoldable pub with_inode : {A : Type 0} → ℕ → (Inode → Cmd (A × Inode)) → Cmd A
  with_inode nr f = do i ← load_inode nr; (a, j) ← f i; store_inode j; pure a

  -- testfs_inode_to_block_nr
  unfoldable pub inode_to_block_nr : ℕ → Cmd ℕ
  inode_to_block_nr nr = do
    assert (ltb (nr / inodes_per_block) nr_inode_blocks)
    pure (nr / inodes_per_block)

  -- testfs_inode_to_block_offset
  unfoldable pub inode_to_block_offset : ℕ → Cmd ℕ
  inode_to_block_offset nr = do
    assert (ltb (nr % inodes_per_block * sizeof_dinode) block_size)
    pure (nr % inodes_per_block * sizeof_dinode)

  -- testfs_read_inode_block
  unfoldable pub read_inode_block : ℕ → Cmd (List Byte)
  read_inode_block nr = do
    block_nr ← inode_to_block_nr nr
    s ← get_fs
    read_blocks (s.sb.inode_blocks_start + block_nr) 1

  -- testfs_write_inode_block
  unfoldable pub write_inode_block : ℕ → List Byte → Cmd (Unit {0})
  write_inode_block nr block = do
    block_nr ← inode_to_block_nr nr
    s ← get_fs
    write_blocks block (s.sb.inode_blocks_start + block_nr) 1

  -- The part of `testfs_get_inode` for an inode that is not in memory.
  unfoldable pub fetch_inode : ℕ → Cmd ℕ
  fetch_inode nr = do
    block ← read_inode_block nr
    block_offset ← inode_to_block_offset nr
    w ← get_state
    put_state (
        hash_insert
          (record {
            dirty = false;
            indirect_dirty = false;
            indirect_loaded = false;
            din = decode_dinode block block_offset;
            i_nr = nr;
            i_count = 1;
            indirect = zero_bytes block_size;
          })
          w)
    pure nr

  -- testfs_get_inode; the pointer that it returns is the number.
  unfoldable pub get_inode : ℕ → Cmd ℕ
  get_inode nr w = elim (hash_find nr w) [
    | some i ↦ (do store_inode (record i { i_count = i.i_count + 1 }); pure nr) w
    | none ↦ fetch_inode nr w
  ]

  -- The end of `testfs_sync_inode`: a changed indirect block is written.
  unfoldable pub sync_indirect : Inode → Cmd Inode
  sync_indirect i =
      if i.indirect_dirty
      then (do
        write_blocks i.indirect i.din.i_indirect 1
        pure (record i { indirect_dirty = false }))
      else pure i

  -- testfs_sync_inode
  unfoldable pub sync_inode : ℕ → Cmd (Unit {0})
  sync_inode nr = do
    i ← load_inode nr
    assert i.dirty
    block ← read_inode_block nr
    block_offset ← inode_to_block_offset nr
    write_inode_block nr (blit block block_offset (encode_dinode i.din))
    j ← sync_indirect i
    store_inode (record j { dirty = false })

  -- testfs_put_inode
  unfoldable pub put_inode : ℕ → Cmd (Unit {0})
  put_inode nr = do
    i ← load_inode nr
    assert (not i.dirty)
    w ← get_state
    if sub_int i.i_count 1 == 0
        then put_state (hash_remove nr w)
        else store_inode (record i { i_count = sub_int i.i_count 1 })

  -- testfs_inode_get_size and testfs_inode_get_type
  unfoldable pub inode_get_size : ℕ → Cmd CInt
  inode_get_size nr = do i ← load_inode nr; pure i.din.i_size

  unfoldable pub inode_get_type : ℕ → Cmd CInt
  inode_get_type nr = do i ← load_inode nr; pure i.din.i_type

  -- testfs_create_inode: 0 and the inode, or an error.
  unfoldable pub create_inode : (type : CInt) → Cmd (CInt × ℕ)
  create_inode type = do
    inode_nr ← get_inode_freemap
    if is_neg inode_nr then pure (inode_nr, 0) else (do
      nr ← get_inode inode_nr
      i ← load_inode nr
      store_inode (record i { din = record i.din { i_type = type }; dirty = true })
      pure (0, nr))

  -- testfs_remove_inode
  unfoldable pub remove_inode : ℕ → Cmd (Unit {0})
  remove_inode nr = do
    with_inode nr (λ i. do j ← truncate_data i 0; pure (tt, j))
    i ← load_inode nr
    store_inode (record i { din = zero_dinode; dirty = true })
    put_inode_freemap nr
    sync_inode nr
    put_inode nr
