-- ===== src/Dir.antt =====
-- src/dir.c: directories as files of entries. An inode is given by its number, the pointer that
-- the code passes. Each walk over the entries has the size of the directory, plus one, as fuel: an
-- entry has at least nine bytes. A C string is the list of its bytes, without the final NUL.
pub mod Remove
pub mod Create
pub mod Show
pub mod Entries
pub mod Lookup
pub mod Insert
pub mod Found
pub mod Reopen
pub mod Add
pub mod Missing
use test_fs.Prelude.{
  ℕ, zero, suc, ◌+◌, ◌*◌, Bool, true, false, Option, none, some, List, [], ◌∷◌, ◌++◌, ◌&&◌, ◌||◌,
  not, ◌==◌, if◌then◌else◌, length,
}
use test_fs.Bytes.{Byte, CInt, neg, is_neg, is_pos, le_int, encode_int, get_int}
use test_fs.Platform.{Platform}
use test_fs.World.{i_dir, Inode, Cmd, ◌>>=◌, ◌>>◌, pure, assert, exhausted}
use test_fs.Inode.File.{read_data, write_data}
use test_fs.Inode.Table.{load_inode, with_inode, inode_get_size, inode_get_type}

-- The errors of src/dir.c, negative.
abbrev pub enoent : CInt
enoent = neg 2

abbrev pub eexist : CInt
eexist = neg 17

abbrev pub enotdir : CInt
enotdir = neg 20

abbrev pub enotempty : CInt
enotempty = neg 39

-- A C string.
abbrev pub Text : Type 0
Text = List Byte

-- "." and ".."
abbrev pub dot : Text
dot = 46 ∷ []

abbrev pub dot_dot : Text
dot_dot = 46 ∷ 46 ∷ []

-- struct dirent, with the bytes behind it that D_NAME points at.
pub record Dirent : Type 0 where
  pub d_name_len : CInt
  pub d_inode_nr : CInt
  pub d_name : List Byte

-- sizeof(struct dirent)
abbrev pub sizeof_dirent : ℕ
sizeof_dirent = 8

-- The bytes of an entry on the disk.
unfoldable pub encode_dirent : Dirent → List Byte
encode_dirent d = encode_int d.d_name_len ++ (encode_int d.d_inode_nr ++ d.d_name)

-- strcmp(bytes, text) == 0: the bytes up to the first NUL are those of the text.
unfoldable pub str_eq : List Byte → Text → Bool
str_eq [] [] = true
str_eq [] (y ∷ ys) = false
str_eq (x ∷ xs) [] = x == 0
str_eq (x ∷ xs) (y ∷ ys) = not (x == 0) && (x == y) && str_eq xs ys

-- The entry is neither free nor one of "." and "..".
unfoldable pub is_child : Dirent → Bool
is_child d = not (is_neg d.d_inode_nr || str_eq d.d_name dot || str_eq d.d_name dot_dot)

-- What the walk of `testfs_add_dirent` ends with: the name is taken, a free entry of the right
-- length, or the end, each with `p_offset`.
pub data Spot : Type 0 where
  taken : Spot
  reuse : ℕ → Spot
  at_end : ℕ → Spot

module _ ⦃p : Platform⦄ where
  -- The second half of `testfs_next_dirent`, from the bytes of the struct.
  unfoldable pub read_name : Inode → (offset : ℕ) → List Byte → Cmd (Option Dirent × ℕ)
  read_name i offset head = do
    assert (is_pos (get_int head 0))
    (ret, name) ← read_data i (offset + sizeof_dirent) (get_int head 0)
    pure (
        if is_neg ret then (none, offset + sizeof_dirent) else (
          some (record { d_name_len = get_int head 0; d_inode_nr = get_int head 4; d_name = name }),
          offset + sizeof_dirent + get_int head 0,
        ))

  -- testfs_next_dirent: the entry, and the offset behind it.
  unfoldable pub next_dirent : (dir offset : ℕ) → Cmd (Option Dirent × ℕ)
  next_dirent dir offset = do
    i ← load_inode dir
    assert (i.din.i_type == i_dir)
    if le_int i.din.i_size offset then pure (none, offset) else (do
      (ret, head) ← read_data i offset sizeof_dirent
      if is_neg ret then pure (none, offset) else read_name i offset head)

  -- The loop of `testfs_find_dirent`.
  unfoldable pub find_from : (fuel dir inode_nr offset : ℕ) → Cmd (Option Dirent)
  find_from zero dir inode_nr offset = λ _. exhausted
  find_from (suc fuel) dir inode_nr offset =
      let rest = λ (offset' : ℕ). find_from fuel dir inode_nr offset' in
      do
        (entry, offset') ← next_dirent dir offset
        elim entry [
          | none ↦ pure none
          | some d ↦ if d.d_inode_nr == inode_nr then pure (some d) else rest offset'
        ]

  -- testfs_find_dirent
  unfoldable pub find_dirent : (dir inode_nr : ℕ) → Cmd (Option Dirent)
  find_dirent dir inode_nr = do
    type ← inode_get_type dir
    assert (type == i_dir)
    assert (not (is_neg inode_nr))
    size ← inode_get_size dir
    find_from (size + 1) dir inode_nr 0

  -- The loop of `testfs_dir_name_to_inode_nr`.
  unfoldable pub name_from : (fuel dir : ℕ) → Text → (offset : ℕ) → Cmd CInt
  name_from zero dir name offset = λ _. exhausted
  name_from (suc fuel) dir name offset =
      let rest = λ (offset' : ℕ). name_from fuel dir name offset' in
      do
        (entry, offset') ← next_dirent dir offset
        elim entry [
          | none ↦ pure enoent
          | some d ↦
              if is_neg d.d_inode_nr || not (str_eq d.d_name name)
              then rest offset'
              else pure d.d_inode_nr
        ]

  -- testfs_dir_name_to_inode_nr
  unfoldable pub dir_name_to_inode_nr : (dir : ℕ) → Text → Cmd CInt
  dir_name_to_inode_nr dir name = do
    type ← inode_get_type dir
    assert (type == i_dir)
    size ← inode_get_size dir
    name_from (size + 1) dir name 0

  -- testfs_write_dirent; `strcpy` copies the name with its NUL.
  unfoldable pub write_dirent : (dir : ℕ) → Text → (len inode_nr offset : ℕ) → Cmd CInt
  write_dirent dir name len inode_nr offset = do
    assert (not (is_neg inode_nr))
    with_inode dir (λ i. write_data i offset (
        encode_dirent
          (record { d_name_len = len; d_inode_nr = inode_nr; d_name = name ++ (0 ∷ []) })))

  -- The walk of `testfs_add_dirent`.
  unfoldable pub spot_from : (fuel dir : ℕ) → Text → (len offset : ℕ) → Cmd Spot
  spot_from zero dir name len offset = λ _. exhausted
  spot_from (suc fuel) dir name len offset =
      let rest = λ (offset' : ℕ). spot_from fuel dir name len offset' in
      do
        (entry, offset') ← next_dirent dir offset
        elim entry [
          | none ↦ pure (at_end offset)
          | some d ↦
              if not (is_neg d.d_inode_nr) && str_eq d.d_name name
              then pure taken
              else if not (is_neg d.d_inode_nr) || not (d.d_name_len == len)
              then rest offset'
              else pure (reuse offset)
        ]

  -- The end of `testfs_add_dirent`.
  unfoldable pub fill_spot : (dir : ℕ) → Text → (len inode_nr : ℕ) → Spot → Cmd CInt
  fill_spot dir name len inode_nr taken = pure eexist
  fill_spot dir name len inode_nr (reuse offset) = write_dirent dir name len inode_nr offset
  fill_spot dir name len inode_nr (at_end offset) = do
    size ← inode_get_size dir
    assert (offset == size)
    write_dirent dir name len inode_nr offset

  -- testfs_add_dirent
  unfoldable pub add_dirent : (dir : ℕ) → Text → (inode_nr : ℕ) → Cmd CInt
  add_dirent dir name inode_nr = do
    type ← inode_get_type dir
    assert (type == i_dir)
    size ← inode_get_size dir
    spot ← spot_from (size + 1) dir name (length name + 1) 0
    fill_spot dir name (length name + 1) inode_nr spot
