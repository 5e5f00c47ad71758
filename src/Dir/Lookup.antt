-- ===== src/Dir/Lookup.antt =====
-- Looking for entries, in src/dir.c, against functions on the list of the entries: the loops of
-- `testfs_dir_name_to_inode_nr`, `testfs_find_dirent`, `testfs_remove_dirent_allowed` and
-- `testfs_add_dirent` each end, and give what the function on the list gives.
use test_fs.Prelude.{
  ℕ, zero, suc, ◌^◌, ◌+◌, ◌≤◌, ◌<◌, ◌≡◌, ◌≢◌, refl, Bool, true, false, Option, some, none, List, [],
  ◌∷◌, arith, length, length-append, ◌&&◌, ◌||◌, not, ◌==◌, eq→==, ne→==, if◌then◌else◌,
}
use native.Mathlib.Decide.{ℕ_discrete}
use test_fs.Bytes.{CInt, is_neg}
use test_fs.Bitmap.{Bitmap}
use test_fs.Platform.{Platform}
use test_fs.World.{World, Inode, i_dir, Cmd, done}
use test_fs.Inode.Table.{inode_get_type, inode_get_size}
use test_fs.Inode.Table.Sync.{load_inode-run}
use test_fs.Dir.{
  Text, Dirent, enoent, encode_dirent, str_eq, find_from, find_dirent, name_from,
  dir_name_to_inode_nr, Spot, taken, reuse, at_end, spot_from, fill_spot, add_dirent, eexist,
}
use test_fs.Dir.Show.{c_string, text_eq}
use test_fs.Dir.Entries.{
  AllDirents, encode_all, length-encode_dirent, IsOpen, Suffix, Suffix-next, next_dirent-end,
  next_dirent-some,
}

-- A text as the code passes it has no NUL.
abbrev pub IsText : Text → Type 0
IsText [] = Unit {0}
IsText (y ∷ ys) = (y ≢ 0) × IsText ys

pub is_neg_small : (k : ℕ) → k < 2 ^ 31 → is_neg k ≡ false
is_neg_small k h = ground arith

-- The entry is in use and has the name.
unfoldable pub is_named : Text → Dirent → Bool
is_named name d = not (is_neg d.d_inode_nr) && text_eq (c_string d.d_name) name

-- The number of the first entry of a name.
unfoldable pub lookup : Text → List Dirent → CInt
lookup name [] = enoent
lookup name (d ∷ ds) = if is_named name d then d.d_inode_nr else lookup name ds

-- The first entry of a number.
unfoldable pub entry_of : ℕ → List Dirent → Option Dirent
entry_of nr [] = none
entry_of nr (d ∷ ds) = if d.d_inode_nr == nr then some d else entry_of nr ds

-- Where an entry of `len` bytes for a name goes, the entries being from `offset` on: a name that
-- comes first is taken, else the first free entry of that length, else the end.
unfoldable pub spot : Text → (len offset : ℕ) → List Dirent → Spot
spot name len offset [] = at_end offset
spot name len offset (d ∷ ds) =
    if is_named name d
    then taken
    else if is_neg d.d_inode_nr && (d.d_name_len == len)
    then reuse offset
    else spot name len (offset + 8 + length d.d_name) ds

pub str_eq-c_string :
    (bytes : List ℕ) (name : Text) → IsText name → str_eq bytes name ≡ text_eq (c_string bytes) name
unfolding str_eq text_eq c_string
str_eq-c_string [] [] h = refl
str_eq-c_string [] (y ∷ ys) h = refl
str_eq-c_string (x ∷ xs) [] h = elim (ℕ_discrete x 0) [
  | yes z ↦ rw (eq→== x 0 z)
  | no ne ↦ rw (ne→== x 0 ne)
]
str_eq-c_string (x ∷ xs) (y ∷ ys) h = elim (ℕ_discrete x 0) [
  | yes z ↦ rw (eq→== x 0 z)
  | no ne ↦ elim (ℕ_discrete x y) [
    | yes e ↦ rw (ne→== x 0 ne, eq→== x y e, str_eq-c_string xs ys h.1)
    | no o ↦ rw (ne→== x 0 ne, ne→== x y o)
  ]
]

length-encode_all : (ds : List Dirent) → AllDirents ds → length ds ≤ length (encode_all ds)
length-encode_all [] h = omega arith
length-encode_all (d ∷ ds) (v, vs) = omega (
  arith,
  length-encode_all ds vs,
  length-encode_dirent d,
  length-append (encode_dirent d) (encode_all ds),
)

module _ ⦃p : Platform⦄ {nr : ℕ} {i : Inode} {w : World p.Dev} {free : Bitmap}
    (o : IsOpen nr i w free) where
  pub get_type-run : inode_get_type nr w ≡ done i_dir w
  unfolding inode_get_type
  get_type-run = rw (load_inode-run w nr o.found, o.type)

  pub get_size-run : inode_get_size nr w ≡ done i.din.i_size w
  unfolding inode_get_size
  get_size-run = rw (load_inode-run w nr o.found)

  -- The fuel of a walk over a directory is enough.
  pub enough : (ds : List Dirent) → Suffix i w 0 ds → length ds < i.din.i_size + 1
  enough ds s = omega (arith, s.ends, length-encode_all ds s.valid)

  name_from-lookup :
      (fuel : ℕ) (name : Text) (ds : List Dirent) (offset : ℕ)
      → IsText name
      → length ds < fuel
      → Suffix i w offset ds
      → name_from fuel nr name offset w ≡ done (lookup name ds) w
  unfolding name_from lookup is_named
  name_from-lookup zero name ds offset t h s = absurd (omega arith)
  name_from-lookup (suc fuel) name [] offset t h s = rw (next_dirent-end o offset s)
  name_from-lookup (suc fuel) name (d ∷ ds) offset t h s =
      rw (next_dirent-some o offset d ds s, str_eq-c_string d.d_name name t)
        (decide _ (is_neg d.d_inode_nr) (text_eq (c_string d.d_name) name) (
          name_from-lookup fuel name ds (offset + 8 + length d.d_name) t (omega arith)
            (Suffix-next s)))
    where
      decide :
          (x : Cmd CInt) (a b : Bool) {r : CInt}
          → x w ≡ done r w
          → (if a || not b then x else (λ v. done d.d_inode_nr v)) w
            ≡ done (if not a && b then d.d_inode_nr else r) w
      decide x true b hx = hx
      decide x false true hx = refl
      decide x false false hx = hx

  -- In an open directory, whose entries are listed, the name of a text is looked up to the end: the
  -- number is that of the first entry in use with the name, or the error is ENOENT; the world is
  -- left as it is.
  pub dir_name_to_inode_nr-lookup :
      (name : Text) (ds : List Dirent)
      → IsText name
      → Suffix i w 0 ds
      → dir_name_to_inode_nr nr name w ≡ done (lookup name ds) w
  unfolding dir_name_to_inode_nr
  dir_name_to_inode_nr-lookup name ds t s =
      rw (get_type-run, get_size-run)
        (name_from-lookup (i.din.i_size + 1) name ds 0 t (enough ds s) s)

  find_from-entry_of :
      (fuel k : ℕ) (ds : List Dirent) (offset : ℕ)
      → length ds < fuel
      → Suffix i w offset ds
      → find_from fuel nr k offset w ≡ done (entry_of k ds) w
  unfolding find_from entry_of
  find_from-entry_of zero k ds offset h s = absurd (omega arith)
  find_from-entry_of (suc fuel) k [] offset h s = rw (next_dirent-end o offset s)
  find_from-entry_of (suc fuel) k (d ∷ ds) offset h s = rw (next_dirent-some o offset d ds s) (
      decide _ (d.d_inode_nr == k)
        (find_from-entry_of fuel k ds (offset + 8 + length d.d_name) (omega arith) (Suffix-next s)))
    where
      decide :
          (x : Cmd (Option Dirent)) (b : Bool) {r : Option Dirent}
          → x w ≡ done r w
          → (if b then (λ v. done (some d) v) else x) w ≡ done (if b then some d else r) w
      decide x true hx = refl
      decide x false hx = hx

  -- In an open directory, whose entries are listed, the entry of a number that is no negative int is
  -- the first one that has it; the walk ends, and the world is left as it is.
  pub find_dirent-entry_of :
      (k : ℕ) (ds : List Dirent)
      → k < 2 ^ 31
      → Suffix i w 0 ds
      → find_dirent nr k w ≡ done (entry_of k ds) w
  unfolding find_dirent
  find_dirent-entry_of k ds positive s =
      rw (get_type-run, is_neg_small k positive, get_size-run)
        (find_from-entry_of (i.din.i_size + 1) k ds 0 (enough ds s) s)

  pub spot_from-spot :
      (fuel : ℕ) (name : Text) (len : ℕ) (ds : List Dirent) (offset : ℕ)
      → IsText name
      → length ds < fuel
      → Suffix i w offset ds
      → spot_from fuel nr name len offset w ≡ done (spot name len offset ds) w
  unfolding spot_from spot is_named
  spot_from-spot zero name len ds offset t h s = absurd (omega arith)
  spot_from-spot (suc fuel) name len [] offset t h s = rw (next_dirent-end o offset s)
  spot_from-spot (suc fuel) name len (d ∷ ds) offset t h s =
      rw (next_dirent-some o offset d ds s, str_eq-c_string d.d_name name t)
        (decide _ (is_neg d.d_inode_nr) (text_eq (c_string d.d_name) name) (d.d_name_len == len) (
          spot_from-spot fuel name len ds (offset + 8 + length d.d_name) t (omega arith)
            (Suffix-next s)))
    where
      decide :
          (x : Cmd Spot) (a b c : Bool) {r : Spot}
          → x w ≡ done r w
          → (if not a && b
                then (λ v. done taken v)
                else if not a || not c
                then x
                else (λ v. done (reuse offset) v))
              w
            ≡ done (if not a && b then taken else if a && c then reuse offset else r) w
      decide x true b true hx = refl
      decide x true b false hx = hx
      decide x false true c hx = refl
      decide x false false c hx = hx

  -- In an open directory, whose entries are listed, a text that an entry in use has as its name
  -- before a free entry of the right length is not added: the result is EEXIST, and the world is
  -- left as it is.
  pub add_dirent-taken :
      (name : Text) (inode_nr : ℕ) (ds : List Dirent)
      → IsText name
      → Suffix i w 0 ds
      → spot name (length name + 1) 0 ds ≡ taken
      → add_dirent nr name inode_nr w ≡ done eexist w
  unfolding add_dirent fill_spot
  add_dirent-taken name inode_nr ds t s e = rw (
    get_type-run,
    get_size-run,
    spot_from-spot (i.din.i_size + 1) name (length name + 1) ds 0 t (enough ds s) s,
    e,
  )
