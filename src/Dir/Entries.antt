-- ===== src/Dir/Entries.antt =====
-- A directory of src/dir.c as the list of its entries: what the file of a directory holds, and how
-- `testfs_next_dirent` walks along it.
use test_fs.Prelude.{
  ℕ, ◌+◌, ◌-◌, ◌/◌, ◌^◌, ◌≤◌, ◌<◌, ◌≡◌, ◌≢◌, refl, sym, ◌∙◌, ap, subst, some, none, List, [], ◌∷◌,
  ◌++◌, arith, length, get_or, length-append, get_or-append_left, get_or-append_right, list_ext,
  leb, eq→==,
}
use test_fs.Bytes.{Byte, le_int, encode_int, get_int}
use test_fs.Bytes.Laws.{int_digits}
use test_fs.Bitmap.{Bitmap}
use test_fs.Platform.{Platform}
use test_fs.World.{World, Inode, i_dir, done}
use test_fs.Inode.File.{read_data}
use test_fs.Inode.Map.{phys, IsMapped}
use test_fs.Inode.Map.Get.{is_pos_of}
use test_fs.Inode.Data.Bytes.{max_size, byte_at}
use test_fs.Inode.Data.Read.{Holds, read_data-Holds}
use test_fs.Inode.Data.Write.{lt→leb, le→leb}
use test_fs.Inode.Table.{hash_find}
use test_fs.Inode.Table.Sync.{load_inode-run}
use test_fs.Dir.{Dirent, encode_dirent, read_name, next_dirent}

-- An entry as the code writes it.
pub record IsDirent (d : Dirent) : Type 0 where
  pub len : d.d_name_len ≡ length d.d_name
  pub some_name : 0 < length d.d_name
  pub short : length d.d_name < 2 ^ 31
  pub number : d.d_inode_nr < 2 ^ 32

-- The bytes of the entries of a directory.
abbrev pub encode_all : List Dirent → List Byte
encode_all [] = []
encode_all (d ∷ ds) = encode_dirent d ++ encode_all ds

abbrev pub AllDirents : List Dirent → Type 0
AllDirents [] = Unit {0}
AllDirents (d ∷ ds) = IsDirent d × AllDirents ds

abbrev pub head_bytes : Dirent → List Byte
head_bytes d = encode_int d.d_name_len ++ encode_int d.d_inode_nr

encode_dirent-head : (d : Dirent) → encode_dirent d ≡ head_bytes d ++ d.d_name
unfolding encode_dirent
encode_dirent-head d = refl

pub length-encode_dirent : (d : Dirent) → length (encode_dirent d) ≡ 8 + length d.d_name
unfolding encode_dirent
length-encode_dirent d = omega arith

get_int-head_bytes :
    (d : Dirent)
    → IsDirent d
    → (get_int (head_bytes d) 0 ≡ d.d_name_len) × (get_int (head_bytes d) 4 ≡ d.d_inode_nr)
unfolding get_int
get_int-head_bytes d h =
    (int_digits d.d_name_len (omega (arith, h.len, h.short)), int_digits d.d_inode_nr h.number)

module _ ⦃p : Platform⦄ where
  -- The open inode of a directory: its blocks are there.
  pub record IsOpen (nr : ℕ) (i : Inode) (w : World p.Dev) (free : Bitmap) : Type 0 where
    pub found : hash_find nr w ≡ some i
    pub number : i.i_nr ≡ nr
    pub type : i.din.i_type ≡ i_dir
    pub mapped : IsMapped i w free
    pub fits : i.din.i_size ≤ max_size
    pub blocks : (q : ℕ) → q < i.din.i_size → phys i w (q / 512) ≢ 0

  -- From `offset` to its end the directory has the entries `ds`.
  pub record Suffix (i : Inode) (w : World p.Dev) (offset : ℕ) (ds : List Dirent) : Type 0 where
    pub holds : Holds i w offset (encode_all ds)
    pub ends : offset + length (encode_all ds) ≡ i.din.i_size
    pub valid : AllDirents ds

  Holds-append_left :
      (i : Inode) (w : World p.Dev) (start : ℕ) (out rest : List Byte)
      → Holds i w start (out ++ rest)
      → Holds i w start out
  Holds-append_left i w start out rest h x l =
      sym (get_or-append_left out rest x 0 l) ∙ h x (omega (arith, length-append out rest))

  Holds-append_right :
      (i : Inode) (w : World p.Dev) (start : ℕ) (out rest : List Byte)
      → Holds i w start (out ++ rest)
      → Holds i w (start + length out) rest
  Holds-append_right i w start out rest h x l =
      ap (λ k. get_or rest k 0) (back (length out) x)
      ∙ sym (get_or-append_right out rest (length out + x) 0 (omega arith))
      ∙ h (length out + x) (omega (arith, length-append out rest))
      ∙ ap (byte_at i w) (shift start (length out) x)
    where
      back : (a b : ℕ) → b ≡ a + b - a
      back a b = omega arith

      shift : (a b c : ℕ) → a + (b + c) ≡ a + b + c
      shift a b c = omega arith

  -- Bytes that are in the file are what is read.
  read_data-exact :
      {nr : ℕ} {i : Inode} {w : World p.Dev} {free : Bitmap} (o : IsOpen nr i w free) (start : ℕ)
      (out : List Byte)
      → Holds i w start out
      → 0 < length out
      → start + length out ≤ i.din.i_size
      → read_data i start (length out) w ≡ done (0, out) w
  read_data-exact {i} {w} o start out h some_left inside =
      let (r, run, total, held) =
        read_data-Holds o.mapped start (length out) (omega (arith, o.fits))
          (λ q lo hi. o.blocks q (omega arith)) some_left inside (omega (arith, o.fits)) in
      run
      ∙ ap (λ b. done (0, b) w)
          (list_ext r out 0 total (λ x l. held x l ∙ sym (h x (omega (arith, total)))))

  le_int_small : (a b : ℕ) → a < 2 ^ 31 → b < 2 ^ 31 → le_int a b ≡ leb a b
  le_int_small a b ha hb = ground arith

  pub next_dirent-end :
      {nr : ℕ} {i : Inode} {w : World p.Dev} {free : Bitmap} (o : IsOpen nr i w free) (offset : ℕ)
      → Suffix i w offset []
      → next_dirent nr offset w ≡ done (none, offset) w
  unfolding next_dirent
  next_dirent-end {nr} {i} {w} o offset s = rw (
    load_inode-run w nr o.found,
    eq→== i.din.i_type i_dir o.type,
    le_int_small i.din.i_size offset (omega (arith, o.fits)) (omega (arith, o.fits, s.ends)),
    le→leb i.din.i_size offset (omega (arith, s.ends)),
  )

  pub Suffix-next :
      {i : Inode} {w : World p.Dev} {offset : ℕ} {d : Dirent} {ds : List Dirent}
      → Suffix i w offset (d ∷ ds)
      → Suffix i w (offset + 8 + length d.d_name) ds
  Suffix-next {i} {w} {offset} {d} {ds} s = record {
    holds =
        subst (λ k. Holds i w k (encode_all ds)) (omega (arith, length-encode_dirent d))
          (Holds-append_right i w offset (encode_dirent d) (encode_all ds) s.holds);
    ends =
        omega
          (arith, s.ends, length-append (encode_dirent d) (encode_all ds), length-encode_dirent d);
    valid = s.valid.1;
  }

  pub next_dirent-some :
      {nr : ℕ} {i : Inode} {w : World p.Dev} {free : Bitmap} (o : IsOpen nr i w free) (offset : ℕ)
      (d : Dirent) (ds : List Dirent)
      → Suffix i w offset (d ∷ ds)
      → next_dirent nr offset w ≡ done (some d, offset + 8 + length d.d_name) w
  unfolding next_dirent read_name
  next_dirent-some {nr} {i} {w} o offset d ds s =
      rw
        (
          load_inode-run w nr o.found,
          eq→== i.din.i_type i_dir o.type,
          le_int_small i.din.i_size offset (omega (arith, o.fits)) (omega (arith, o.fits, total)),
          lt→leb i.din.i_size offset (omega (arith, total)),
          read_data-exact o offset (head_bytes d)
              (Holds-append_left i w offset (head_bytes d) d.d_name front) (omega arith)
              (omega (arith, total)),
          fields.0,
          fields.1,
          v.len,
          is_pos_of (length d.d_name) (omega (arith, v.some_name)) v.short,
          read_data-exact o (offset + 8) d.d_name
              (Holds-append_right i w offset (head_bytes d) d.d_name front) v.some_name
              (omega (arith, total)),
        )
        refl
    where
      v : IsDirent d
      v = s.valid.0

      fields : (get_int (head_bytes d) 0 ≡ d.d_name_len) × (get_int (head_bytes d) 4 ≡ d.d_inode_nr)
      fields = get_int-head_bytes d v

      front : Holds i w offset (head_bytes d ++ d.d_name)
      front =
          subst (Holds i w offset) (encode_dirent-head d)
            (Holds-append_left i w offset (encode_dirent d) (encode_all ds) s.holds)

      total : offset + (8 + length d.d_name) ≤ i.din.i_size
      total =
          omega
            (arith, s.ends, length-append (encode_dirent d) (encode_all ds), length-encode_dirent d)
