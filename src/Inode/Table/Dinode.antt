-- ===== src/Inode/Table/Dinode.antt =====
-- The dinode of an inode on the device: `testfs_sync_inode` and `testfs_get_inode` of src/inode.c.
use test_fs.Prelude.{
  ℕ, ◌+◌, ◌^◌, ◌≤◌, ◌<◌, ◌≡◌, refl, sym, ◌∙◌, ap, Bool, false, Option, some, List, [], ◌∷◌, arith,
  length, get_or, eq→==, ne→==, ◌==◌, if◌then◌else◌,
}
use native.Mathlib.Decide.{ℕ_discrete}
use test_fs.Bytes.{Byte, CInt, get_int, blit}
use test_fs.Bytes.Laws.{int_digits, get_or-blit_inside}
use test_fs.World.{DInode, Inode}
use test_fs.Inode.Table.{encode_dinode, decode_dinode, find_in, remove_from, replace_in}

-- The fields are 32-bit patterns, and there are four direct blocks.
pub record IsDinode (d : DInode) : Type 0 where
  pub type : d.i_type < 2 ^ 32
  pub size : d.i_size < 2 ^ 32
  pub time : d.i_mod_time < 2 ^ 32
  pub direct : length d.i_block_nr ≡ 4
  pub blocks : (k : ℕ) → get_or d.i_block_nr k 0 < 2 ^ 32
  pub indirect : d.i_indirect < 2 ^ 32

get_int-blit :
    (dst : List Byte) (off : ℕ) (src : List Byte) (k : ℕ)
    → off + length src ≤ length dst
    → k + 4 ≤ length src
    → get_int (blit dst off src) (off + k) ≡ get_int src k
unfolding get_int
get_int-blit dst off src k fits inside = omega (
  arith,
  get_or-blit_inside dst off src fits k (omega arith),
  at 1 (omega arith),
  at 2 (omega arith),
  at 3 (omega arith),
)
  where
    at :
        (j : ℕ)
        → k + j < length src
        → get_or (blit dst off src) (off + k + j) 0 ≡ get_or src (k + j) 0
    at j h =
        ap (λ n. get_or (blit dst off src) n 0) (omega arith)
        ∙ get_or-blit_inside dst off src fits (k + j) h

four :
    (xs : List CInt)
    → length xs ≡ 4
    → xs ≡ get_or xs 0 0 ∷ get_or xs 1 0 ∷ get_or xs 2 0 ∷ get_or xs 3 0 ∷ []
four [] h = absurd (omega arith)
four (a ∷ []) h = absurd (omega arith)
four (a ∷ b ∷ []) h = absurd (omega arith)
four (a ∷ b ∷ c ∷ []) h = absurd (omega arith)
four (a ∷ b ∷ c ∷ d ∷ []) h = refl
four (a ∷ b ∷ c ∷ d ∷ e ∷ xs) h = absurd (omega arith)

-- The bytes of a dinode, with the direct blocks written out.
abbrev spelt : DInode → DInode
spelt d = record d {
  i_block_nr =
      get_or d.i_block_nr 0 0
      ∷ get_or d.i_block_nr 1 0
      ∷ get_or d.i_block_nr 2 0
      ∷ get_or d.i_block_nr 3 0
      ∷ [];
}

spelt_same : (d : DInode) → IsDinode d → spelt d ≡ d
spelt_same d h = λ i. record d { i_block_nr = sym (four d.i_block_nr h.direct) i }

decode-encode_spelt :
    (d : DInode) (dst : List Byte) (off : ℕ)
    → IsDinode d
    → off + 32 ≤ length dst
    → decode_dinode (blit dst off (encode_dinode (spelt d))) off ≡ spelt d
unfolding decode_dinode encode_dinode get_int
decode-encode_spelt d dst off h fits = λ i. record {
  i_type =
      (ap (get_int (blit dst off (encode_dinode (spelt d)))) (plus_zero off)
          ∙ field 0 (omega arith)
          ∙ int_digits d.i_type h.type)
        i;
  i_size = (field 4 (omega arith) ∙ int_digits d.i_size h.size) i;
  i_mod_time = (field 8 (omega arith) ∙ int_digits d.i_mod_time h.time) i;
  i_block_nr =
      (field 12 (omega arith) ∙ int_digits _ (h.blocks 0)) i
      ∷ (field 16 (omega arith) ∙ int_digits _ (h.blocks 1)) i
      ∷ (field 20 (omega arith) ∙ int_digits _ (h.blocks 2)) i
      ∷ (field 24 (omega arith) ∙ int_digits _ (h.blocks 3)) i
      ∷ [];
  i_indirect = (field 28 (omega arith) ∙ int_digits d.i_indirect h.indirect) i;
}
  where
    plus_zero : (n : ℕ) → n ≡ n + 0
    plus_zero n = omega arith

    field :
        (k : ℕ)
        → k + 4 ≤ 32
        → get_int (blit dst off (encode_dinode (spelt d))) (off + k)
          ≡ get_int (encode_dinode (spelt d)) k
    field k inside = get_int-blit dst off (encode_dinode (spelt d)) k fits inside

-- A dinode copied into a block is read back from there.
pub decode-encode_dinode :
    (d : DInode) (dst : List Byte) (off : ℕ)
    → IsDinode d
    → off + 32 ≤ length dst
    → decode_dinode (blit dst off (encode_dinode d)) off ≡ d
decode-encode_dinode d dst off h fits =
    ap (λ e. decode_dinode (blit dst off (encode_dinode e)) off) (sym (spelt_same d h))
    ∙ decode-encode_spelt d dst off h fits
    ∙ spelt_same d h

-- A chain with inode `j` in the place of the one it has.
pub find_in-replace_in :
    (chain : List Inode) (nr : ℕ) {i : Inode} (j : Inode)
    → j.i_nr ≡ nr
    → find_in nr chain ≡ some i
    → find_in nr (replace_in j chain) ≡ some j
unfolding find_in replace_in
find_in-replace_in [] nr j e h = absurd (cc h)
find_in-replace_in (x ∷ chain) nr j e h = elim (ℕ_discrete x.i_nr nr) [
  | yes same ↦ rw (eq→== x.i_nr j.i_nr (same ∙ sym e), eq→== j.i_nr nr e)
  | no ne ↦
      let miss : (x.i_nr == nr) ≡ false = ne→== x.i_nr nr ne in
      rw (ne→== x.i_nr j.i_nr (λ s. ne (s ∙ e)), miss)
        (find_in-replace_in chain nr j e (under miss h))
]
  where
    under :
        {b : Bool} {r : Option Inode}
        → b ≡ false
        → (if b then some x else find_in nr chain) ≡ r
        → find_in nr chain ≡ r
    under e h = rw e at h

pub remove_from-replace_in :
    (chain : List Inode) (nr : ℕ) (j : Inode)
    → j.i_nr ≡ nr
    → remove_from nr (replace_in j chain) ≡ remove_from nr chain
unfolding remove_from replace_in
remove_from-replace_in [] nr j e = refl
remove_from-replace_in (x ∷ chain) nr j e = elim (ℕ_discrete x.i_nr nr) [
  | yes same ↦ rw (eq→== x.i_nr j.i_nr (same ∙ sym e), eq→== j.i_nr nr e, eq→== x.i_nr nr same)
  | no ne ↦
      rw (ne→== x.i_nr j.i_nr (λ s. ne (s ∙ e)), ne→== x.i_nr nr ne)
        (ap (◌∷◌ x) (remove_from-replace_in chain nr j e))
]

pub length-encode_dinode : (d : DInode) → IsDinode d → length (encode_dinode d) ≡ 32
length-encode_dinode d h = ap (λ e. length (encode_dinode e)) (sym (spelt_same d h)) ∙ of d
  where
    of : (d : DInode) → length (encode_dinode (spelt d)) ≡ 32
    of d = unfold encode_dinode in refl
