-- ===== src/Dir/Remove.antt =====
-- Removing an entry of a directory, in src/dir.c.
use test_fs.Prelude.{ℕ, zero, suc, ◌+◌, none, some, ◌||◌, not, ◌==◌, if◌then◌else◌}
use test_fs.Bytes.{CInt, neg, is_neg}
use test_fs.Platform.{Platform}
use test_fs.World.{i_dir, Cmd, ◌>>=◌, ◌>>◌, pure, exhausted}
use test_fs.Csum.{einval}
use test_fs.Inode.File.{write_data}
use test_fs.Inode.Table.{with_inode, get_inode, put_inode, inode_get_size, inode_get_type}
use test_fs.Dir.{
  Text, Dirent, dot, dot_dot, enoent, enotempty, str_eq, is_child, encode_dirent, next_dirent,
}

module _ ⦃p : Platform⦄ where
  -- The loop of `testfs_remove_dirent_allowed`.
  unfoldable pub allowed_from : (fuel dir offset : ℕ) → Cmd CInt
  allowed_from zero dir offset = λ _. exhausted
  allowed_from (suc fuel) dir offset =
      let rest = λ (offset' : ℕ). allowed_from fuel dir offset' in
      do
        (entry, offset') ← next_dirent dir offset
        elim entry [ none ↦ pure 0 | some d ↦ if is_child d then pure enotempty else rest offset' ]

  -- testfs_remove_dirent_allowed
  unfoldable pub remove_dirent_allowed : (inode_nr : ℕ) → Cmd CInt
  remove_dirent_allowed inode_nr = do
    dir ← get_inode inode_nr
    type ← inode_get_type dir
    size ← inode_get_size dir
    ret ← (if type == i_dir then allowed_from (size + 1) dir 0 else pure 0)
    put_inode dir
    pure ret

  -- What `testfs_remove_dirent` does with the entry of the name.
  unfoldable pub free_dirent : (dir p_offset : ℕ) → Dirent → Cmd CInt
  free_dirent dir p_offset d = do
    allowed ← remove_dirent_allowed d.d_inode_nr
    if is_neg allowed then pure allowed else (do
      ret ←
          with_inode dir
            (λ i. write_data i p_offset (encode_dirent (record d { d_inode_nr = neg 1 })))
      pure (if is_neg ret then ret else d.d_inode_nr))

  -- The loop of `testfs_remove_dirent`.
  unfoldable pub remove_from : (fuel dir : ℕ) → Text → (offset : ℕ) → Cmd CInt
  remove_from zero dir name offset = λ _. exhausted
  remove_from (suc fuel) dir name offset =
      let rest = λ (offset' : ℕ). remove_from fuel dir name offset' in
      do
        (entry, offset') ← next_dirent dir offset
        elim entry [
          | none ↦ pure enoent
          | some d ↦
              if is_neg d.d_inode_nr || not (str_eq d.d_name name)
              then rest offset'
              else free_dirent dir offset d
        ]

  -- testfs_remove_dirent: the number of the inode whose entry is gone, or an error.
  unfoldable pub remove_dirent : (dir : ℕ) → Text → Cmd CInt
  remove_dirent dir name =
      if str_eq name dot || str_eq name dot_dot
      then pure einval
      else (do size ← inode_get_size dir; remove_from (size + 1) dir name 0)
