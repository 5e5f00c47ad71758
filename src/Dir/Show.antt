-- ===== src/Dir/Show.antt =====
-- The commands pwd, ls, lsr and stat of src/dir.c. What a command prints is part of its value, as
-- bytes, or for stat as the numbers that are printed. A walk along a tree takes its depth as fuel.
use test_fs.Prelude.{
  ℕ, zero, suc, ◌+◌, ◌-◌, Bool, true, false, none, some, List, [], ◌∷◌, ◌++◌, ◌&&◌, not, ltb, ◌==◌,
  if◌then◌else◌,
}
use test_fs.Bytes.{Byte, CInt, is_neg}
use test_fs.Platform.{Platform}
use test_fs.World.{i_dir, Cmd, ◌>>=◌, ◌>>◌, pure, assert, non_null, exhausted}
use test_fs.Csum.{einval}
use test_fs.Inode.Table.{get_inode, put_inode, inode_get_size, inode_get_type}
use test_fs.Dir.{Text, dot, dot_dot, is_child, next_dirent, find_dirent, dir_name_to_inode_nr}
use test_fs.Dir.Create.{Context, argument}

-- A string up to its NUL, as "%s" prints it.
unfoldable pub c_string : List Byte → Text
c_string [] = []
c_string (x ∷ xs) = let rest = c_string xs in if x == 0 then [] else x ∷ rest

-- strcmp(a, b) == 0 for texts
unfoldable pub text_eq : Text → Text → Bool
text_eq [] [] = true
text_eq [] (y ∷ ys) = false
text_eq (x ∷ xs) [] = false
text_eq (x ∷ xs) (y ∷ ys) = let rest = text_eq xs ys in if x == y then rest else false

abbrev pub slash : Text
slash = 47 ∷ []

abbrev pub newline : Text
newline = 10 ∷ []

-- The line that stat prints for a file.
pub record Stat : Type 0 where
  pub name : Text
  pub i_nr : ℕ
  pub i_type : CInt
  pub i_size : CInt

module _ ⦃p : Platform⦄ where
  -- testfs_pwd: 1 at the root, and the path.
  unfoldable pub pwd_from : (depth nr : ℕ) → Cmd (CInt × Text)
  pwd_from zero nr = λ _. exhausted
  pwd_from (suc depth) nr =
      let rest = λ (dir : ℕ). pwd_from depth dir in
      do
        p_inode_nr ← dir_name_to_inode_nr nr dot_dot
        assert (not (is_neg p_inode_nr))
        if p_inode_nr == nr then pure (1, slash) else (do
          p_in ← get_inode p_inode_nr
          entry ← find_dirent p_in nr
          d ← non_null entry
          (ret, path) ← rest p_in
          put_inode p_in
          pure (0, path ++ ((if ret == 1 then [] else slash) ++ c_string d.d_name)))

  -- cmd_pwd
  unfoldable pub cmd_pwd : (depth : ℕ) → Context → Cmd (CInt × Text)
  cmd_pwd depth c = if not (c.nargs == 1) then pure (einval, []) else (do
    dir ← non_null c.cur_dir
    (ret, path) ← pwd_from depth dir
    pure (0, path ++ newline))

  -- The loop of `testfs_ls`, given the listing of a directory in it.
  unfoldable pub ls_entries : (ℕ → Cmd Text) → (recursive : Bool) → (fuel dir offset : ℕ) → Cmd Text
  ls_entries child recursive zero dir offset = λ _. exhausted
  ls_entries child recursive (suc fuel) dir offset =
      let rest = λ (offset' : ℕ). ls_entries child recursive fuel dir offset' in
      do
        (entry, offset') ← next_dirent dir offset
        elim entry [
          | none ↦ pure []
          | some d ↦ if is_neg d.d_inode_nr then rest offset' else (do
            cin ← get_inode d.d_inode_nr
            type ← inode_get_type cin
            below ← (if recursive && (type == i_dir) && is_child d then child cin else pure [])
            put_inode cin
            after ← rest offset'
            pure (
                c_string d.d_name
                ++ ((if type == i_dir then slash else []) ++ (newline ++ (below ++ after)))))
        ]

  -- testfs_ls
  unfoldable pub ls_from : (depth : ℕ) → (recursive : Bool) → (dir : ℕ) → Cmd Text
  ls_from zero recursive dir = λ _. exhausted
  ls_from (suc depth) recursive dir =
      let child = λ (cin : ℕ). ls_from depth recursive cin in
      do size ← inode_get_size dir; ls_entries child recursive (size + 1) dir 0

  -- `cmd_ls` and `cmd_lsr`, which differ in the flag alone.
  unfoldable pub list_dir : (recursive : Bool) → (depth : ℕ) → Context → Cmd (CInt × Text)
  list_dir recursive depth c =
      if not (c.nargs == 1) && not (c.nargs == 2) then pure (einval, []) else (do
        dir ← non_null c.cur_dir
        inode_nr ← dir_name_to_inode_nr dir (if c.nargs == 2 then argument c 1 else dot)
        if is_neg inode_nr then pure (inode_nr, []) else (do
          nr ← get_inode inode_nr
          out ← ls_from depth recursive nr
          put_inode nr
          pure (0, out)))

  -- cmd_ls
  unfoldable pub cmd_ls : (depth : ℕ) → Context → Cmd (CInt × Text)
  cmd_ls = list_dir false

  -- cmd_lsr
  unfoldable pub cmd_lsr : (depth : ℕ) → Context → Cmd (CInt × Text)
  cmd_lsr = list_dir true

  -- The loop of `cmd_stat`.
  unfoldable pub stat_from : Context → (rounds i : ℕ) → Cmd (CInt × List Stat)
  stat_from c zero i = pure (0, [])
  stat_from c (suc rounds) i =
      let rest = stat_from c rounds (i + 1) in
      do
        dir ← non_null c.cur_dir
        inode_nr ← dir_name_to_inode_nr dir (argument c i)
        if is_neg inode_nr then pure (inode_nr, []) else (do
          nr ← get_inode inode_nr
          type ← inode_get_type nr
          size ← inode_get_size nr
          put_inode nr
          (ret, out) ← rest
          pure (
            ret,
            (record { name = argument c i; i_nr = nr; i_type = type; i_size = size }) ∷ out,
          ))

  -- cmd_stat
  unfoldable pub cmd_stat : Context → Cmd (CInt × List Stat)
  cmd_stat c = if ltb c.nargs 2 then pure (einval, []) else stat_from c (c.nargs - 1) 1
