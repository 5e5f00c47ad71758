-- ===== src/Dir/Create.antt =====
-- Creating files and directories, and the commands cd, touch, mkdir and rm, in src/dir.c; the file
-- system that `mkfs` of src/super.c makes with them.
use test_fs.Prelude.{
  ℕ, zero, suc, ◌+◌, ◌-◌, Option, none, some, List, [], ◌∷◌, not, ltb, ◌==◌, if◌then◌else◌, get_or,
}
use test_fs.Bytes.{CInt, is_neg}
use test_fs.Platform.{Platform}
use test_fs.World.{i_file, i_dir, tx_create, tx_rm, Cmd, ◌>>=◌, ◌>>◌, pure, assert, non_null}
use test_fs.Tx
use test_fs.Csum.{einval}
use test_fs.Super.{
  make_super_block, make_inode_freemap, make_block_freemap, make_csum_table, make_inode_blocks,
  flush_super_block, init_super_block,
}
use test_fs.Inode.Table.{
  get_inode, put_inode, sync_inode, create_inode, remove_inode, inode_get_type,
}
use test_fs.Dir.{Text, dot, dot_dot, eexist, enotdir, str_eq, add_dirent, dir_name_to_inode_nr}
use test_fs.Dir.Remove.{remove_dirent}

-- struct context, for the commands of this file: `cmd` holds the arguments from the name on, and
-- `cur_dir` the inode of the current directory.
pub record Context : Type 0 where
  pub nargs : ℕ
  pub cmd : List Text
  pub cur_dir : Option ℕ

abbrev pub argument : Context → ℕ → Text
argument c i = get_or c.cmd i []

module _ ⦃p : Platform⦄ where
  -- testfs_create_empty_dir
  unfoldable pub create_empty_dir : (p_inode_nr cdir : ℕ) → Cmd CInt
  create_empty_dir p_inode_nr cdir = do
    type ← inode_get_type cdir
    assert (type == i_dir)
    ret ← add_dirent cdir dot cdir
    if is_neg ret then pure ret else (do
      ret' ← add_dirent cdir dot_dot p_inode_nr
      if is_neg ret' then (do remove_dirent cdir dot; pure ret') else pure 0)

  -- The label `out` of `testfs_create_file_or_dir`.
  unfoldable pub create_out : (nr : ℕ) → CInt → Cmd CInt
  create_out nr ret = do remove_inode nr; Tx.commit tx_create; pure ret

  -- Its end after the entry in the parent.
  unfoldable pub create_done : (nr : ℕ) → Cmd CInt
  create_done nr = do sync_inode nr; put_inode nr; Tx.commit tx_create; pure 0

  -- The entry in the parent directory, if there is one.
  unfoldable pub create_entry : Option ℕ → Text → (nr : ℕ) → Cmd CInt
  create_entry none name nr = create_done nr
  create_entry (some dir) name nr = do
    ret ← add_dirent dir name nr
    if is_neg ret then create_out nr ret else (do sync_inode dir; create_done nr)

  -- The parent of the new directory, or itself.
  abbrev pub parent_or : Option ℕ → ℕ → ℕ
  parent_or none nr = nr
  parent_or (some dir) nr = dir

  -- `testfs_create_file_or_dir` from the start of the transaction on.
  unfoldable pub create_in : Option ℕ → (type : CInt) → Text → Cmd CInt
  create_in dir type name = do
    Tx.start tx_create
    (ret, nr) ← create_inode type
    if is_neg ret
        then (do Tx.commit tx_create; pure ret)
        else if type == i_dir
        then (do
          ret' ← create_empty_dir (parent_or dir nr) nr
          if is_neg ret' then create_out nr ret' else create_entry dir name nr)
        else create_entry dir name nr

  -- testfs_create_file_or_dir
  unfoldable pub create_file_or_dir : Option ℕ → (type : CInt) → Text → Cmd CInt
  create_file_or_dir none type name = create_in none type name
  create_file_or_dir (some dir) type name = do
    inode_nr ← dir_name_to_inode_nr dir name
    if is_neg inode_nr then create_in (some dir) type name else pure eexist

  -- testfs_make_root_dir
  unfoldable pub make_root_dir : Cmd CInt
  make_root_dir = create_file_or_dir none i_dir []

  -- `cmd_cd` with the number of the directory.
  unfoldable pub change_dir : (inode_nr : ℕ) → Context → Cmd (CInt × Context)
  change_dir inode_nr c = do
    dir_inode ← get_inode inode_nr
    type ← inode_get_type dir_inode
    if not (type == i_dir) then (do put_inode dir_inode; pure (enotdir, c)) else (do
      old ← non_null c.cur_dir
      put_inode old
      pure (0, record c { cur_dir = some dir_inode }))

  -- cmd_cd
  unfoldable pub cmd_cd : Context → Cmd (CInt × Context)
  cmd_cd c =
      if not (c.nargs == 2)
      then pure (einval, c)
      else if str_eq (argument c 1) (47 ∷ [])
      then change_dir 0 c
      else (do
        dir ← non_null c.cur_dir
        inode_nr ← dir_name_to_inode_nr dir (argument c 1)
        if is_neg inode_nr then pure (inode_nr, c) else change_dir inode_nr c)

  -- The loop of `cmd_create`.
  unfoldable pub create_from : Context → (rounds i : ℕ) → Cmd CInt
  create_from c zero i = pure 0
  create_from c (suc rounds) i =
      let rest = create_from c rounds (i + 1) in
      do
        ret ← create_file_or_dir c.cur_dir i_file (argument c i)
        if is_neg ret then pure ret else rest

  -- cmd_create
  unfoldable pub cmd_create : Context → Cmd CInt
  cmd_create c = if ltb c.nargs 2 then pure einval else create_from c (c.nargs - 1) 1

  -- cmd_rm
  unfoldable pub cmd_rm : Context → Cmd CInt
  cmd_rm c = if not (c.nargs == 2) then pure einval else (do
    Tx.start tx_rm
    dir ← non_null c.cur_dir
    inode_nr ← remove_dirent dir (argument c 1)
    if is_neg inode_nr
        then (do Tx.commit tx_rm; pure inode_nr)
        else (do nr ← get_inode inode_nr; remove_inode nr; sync_inode dir; Tx.commit tx_rm; pure 0))

  -- cmd_mkdir
  unfoldable pub cmd_mkdir : Context → Cmd CInt
  cmd_mkdir c =
      if not (c.nargs == 2) then pure einval else create_file_or_dir c.cur_dir i_dir (argument c 1)

  -- The reference to the current directory is given up.
  unfoldable pub leave_dir : Context → Cmd (Unit {0})
  leave_dir c = elim c.cur_dir [ none ↦ pure tt | some dir ↦ put_inode dir ]

  -- cmd_mkfs of src/super.c; EXIT ends the program.
  unfoldable pub cmd_mkfs : Context → Cmd (CInt × Context)
  cmd_mkfs c = do
    leave_dir c
    make_super_block
    make_inode_freemap
    make_block_freemap
    make_csum_table
    make_inode_blocks
    flush_super_block
    ret ← init_super_block
    assert (ret == 0)
    ret' ← make_root_dir
    assert (ret' == 0)
    flush_super_block
    ret'' ← init_super_block
    assert (ret'' == 0)
    dir ← get_inode 0
    pure (0, record c { cur_dir = some dir })
