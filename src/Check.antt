-- ===== src/Check.antt =====
-- The check of a file system: `testfs_check_inode` of src/inode.c, `testfs_checkfs` and
-- `cmd_checkfs` of src/super.c. A walk down the tree takes its depth as fuel.
use test_fs.Prelude.{
  ℕ, zero, suc, ◌+◌, ◌*◌, Bool, true, false, none, some, List, ◌||◌, not, ◌==◌, if◌then◌else◌,
  get_or,
}
use test_fs.Bytes.{Byte, CInt, sub_int, round_up, get_int}
use test_fs.Bitmap
use test_fs.Bitmap.{Bitmap, bits_per_word}
use test_fs.Platform.{Platform, block_size}
use test_fs.World.{
  Inode, i_file, i_dir, nr_direct_blocks, nr_indirect_blocks, Cmd, ◌>>=◌, ◌>>◌, pure, assert,
  non_null, exhausted, get_fs,
}
use test_fs.Block.{read_blocks}
use test_fs.Csum.{einval, verify_csum}
use test_fs.Freemap.{inode_freemap_size, block_freemap_size}
use test_fs.Inode.Table.{load_inode, get_inode, put_inode}
use test_fs.Dir.{is_child, next_dirent}

-- A walk over the blocks of an inode: whether it met the end of the file, the bytes of the blocks
-- up to there, and the freemap with those blocks marked.
pub record Walk : Type 0 where
  pub ended : Bool
  pub size : ℕ
  pub freemap : Bitmap

-- The two freemaps that the check rebuilds.
pub record Rebuilt : Type 0 where
  pub i_freemap : Bitmap
  pub b_freemap : Bitmap

-- What `cmd_checkfs` returns and prints: whether the freemaps agree, and the counts.
pub record Report : Type 0 where
  pub ret : CInt
  pub inodes_consistent : Bool
  pub blocks_consistent : Bool
  pub inodes : ℕ
  pub blocks : ℕ

module _ ⦃p : Platform⦄ where
  -- One block of `testfs_check_inode`: the result of the checksum is not used.
  unfoldable pub check_block : CInt → Walk → Cmd Walk
  check_block block_nr k = do
    verify_csum block_nr
    s ← get_fs
    b ← non_null (Bitmap.mark k.freemap (sub_int block_nr s.sb.data_blocks_start))
    pure (record { ended = false; size = k.size + block_size; freemap = b })

  -- Its loop over the direct blocks.
  unfoldable pub check_direct : Inode → (rounds l : ℕ) → Walk → Cmd Walk
  check_direct i zero l k = pure k
  check_direct i (suc rounds) l k =
      if get_or i.din.i_block_nr l 0 == 0
      then pure (record k { ended = true })
      else (do k' ← check_block (get_or i.din.i_block_nr l 0) k; check_direct i rounds (l + 1) k')

  -- Its loop over the ints of the indirect block.
  unfoldable pub check_slots : List Byte → (rounds slot : ℕ) → Walk → Cmd Walk
  check_slots block zero slot k = pure k
  check_slots block (suc rounds) slot k =
      if get_int block (4 * slot) == 0 then pure (record k { ended = true }) else (do
        k' ← check_block (get_int block (4 * slot)) k
        check_slots block rounds (slot + 1) k')

  -- The part of `testfs_check_inode` behind the direct blocks.
  unfoldable pub check_indirect : Inode → Walk → Cmd Walk
  check_indirect i k = if i.din.i_indirect == 0 then pure k else (do
    s ← get_fs
    b ← non_null (Bitmap.mark k.freemap (sub_int i.din.i_indirect s.sb.data_blocks_start))
    block ← read_blocks i.din.i_indirect 1
    check_slots block nr_indirect_blocks 0 (record k { freemap = b }))

  -- testfs_check_inode
  unfoldable pub check_inode : Inode → Bitmap → Cmd Walk
  check_inode i b_freemap = do
    k ← check_direct i nr_direct_blocks 0 (record { ended = false; size = 0; freemap = b_freemap })
    if k.ended then pure k else check_indirect i k

  -- The loop of `testfs_checkfs` over the entries of a directory, given the check of a child.
  unfoldable pub check_entries :
      (ℕ → Rebuilt → Cmd Rebuilt) → (fuel dir offset : ℕ) → Rebuilt → Cmd Rebuilt
  check_entries child zero dir offset r = λ _. exhausted
  check_entries child (suc fuel) dir offset r =
      let rest = λ (offset' : ℕ) (r' : Rebuilt). check_entries child fuel dir offset' r' in
      do
        (entry, offset') ← next_dirent dir offset
        elim entry [
          | none ↦ pure r
          | some d ↦
              if is_child d then (do r' ← child d.d_inode_nr r; rest offset' r') else rest offset' r
        ]

  -- testfs_checkfs
  unfoldable pub check_tree : (depth inode_nr : ℕ) → Rebuilt → Cmd Rebuilt
  check_tree zero inode_nr r = λ _. exhausted
  check_tree (suc depth) inode_nr r =
      let child = λ (nr : ℕ) (r' : Rebuilt). check_tree depth nr r' in
      do
        nr ← get_inode inode_nr
        i ← load_inode nr
        assert (i.din.i_type == i_file || i.din.i_type == i_dir)
        b ← non_null (Bitmap.mark r.i_freemap inode_nr)
        r' ←
            (if i.din.i_type == i_dir
              then check_entries child (i.din.i_size + 1) nr 0 (record r { i_freemap = b })
              else pure (record r { i_freemap = b }))
        k ← check_inode i r'.b_freemap
        assert (k.size == round_up i.din.i_size block_size)
        put_inode nr
        pure (record r' { b_freemap = k.freemap })

  -- cmd_checkfs, for trees of at most `depth` levels.
  unfoldable pub cmd_checkfs : (depth nargs : ℕ) → Cmd Report
  cmd_checkfs depth nargs =
      if not (nargs == 1)
      then pure (record {
        ret = einval;
        inodes_consistent = false;
        blocks_consistent = false;
        inodes = 0;
        blocks = 0;
      })
      else (do
        i_freemap ← non_null (
            Bitmap.made (Bitmap.create true true (block_size * inode_freemap_size * bits_per_word)))
        b_freemap ← non_null (
            Bitmap.made (Bitmap.create true true (block_size * block_freemap_size * bits_per_word)))
        r ← check_tree depth 0 (record { i_freemap = i_freemap; b_freemap = b_freemap })
        s ← get_fs
        inodes ← non_null s.inode_freemap
        blocks ← non_null s.block_freemap
        pure (record {
          ret = 0;
          inodes_consistent = Bitmap.equal inodes r.i_freemap;
          blocks_consistent = Bitmap.equal blocks r.b_freemap;
          inodes = Bitmap.nr_allocated inodes;
          blocks = Bitmap.nr_allocated blocks;
        }))
