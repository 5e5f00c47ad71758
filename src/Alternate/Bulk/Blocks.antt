-- ===== src/Alternate/Bulk/Blocks.antt =====
-- The block that step 3 of `testfs_bulk_sync_inode` builds, and the dinodes in it.
use test_fs.Prelude.{
  ℕ, ◌+◌, ◌≤◌, ◌≡◌, ◌≢◌, refl, sym, ◌∙◌, ap, ◌⊎◌, inl, inr, some, List, [], ◌∷◌, arith, length,
  eq→==, ne→==, ◌==◌, if◌then◌else◌,
}
use native.Mathlib.Decide.{ℕ_discrete}
use test_fs.Bytes.{Byte, get_int, blit}
use test_fs.Bytes.Laws.{get_or-blit_before, get_or-blit_after}
use test_fs.Platform.{Platform}
use test_fs.World.{World, Inode}
use test_fs.Inode.Table.{
  decode_dinode, find_in, replace_in, hash_fn, update_chain, hash_find, hash_replace,
}

get_int-blit_other :
    (dst : List Byte) (off : ℕ) (src : List Byte) (at : ℕ)
    → off + length src ≤ length dst
    → (at + 4 ≤ off) ⊎ (off + length src ≤ at)
    → get_int (blit dst off src) at ≡ get_int dst at
unfolding get_int
get_int-blit_other dst off src at fits (inl before) = omega (
  arith,
  get_or-blit_before dst off src fits at (omega arith),
  get_or-blit_before dst off src fits (at + 1) (omega arith),
  get_or-blit_before dst off src fits (at + 2) (omega arith),
  get_or-blit_before dst off src fits (at + 3) (omega arith),
)
get_int-blit_other dst off src at fits (inr after) = omega (
  arith,
  get_or-blit_after dst off src fits at (omega arith),
  get_or-blit_after dst off src fits (at + 1) (omega arith),
  get_or-blit_after dst off src fits (at + 2) (omega arith),
  get_or-blit_after dst off src fits (at + 3) (omega arith),
)

-- A dinode beside the one that is copied into a block.
pub decode-blit_other :
    (dst : List Byte) (off : ℕ) (src : List Byte) (at : ℕ)
    → off + length src ≤ length dst
    → (at + 32 ≤ off) ⊎ (off + length src ≤ at)
    → decode_dinode (blit dst off src) at ≡ decode_dinode dst at
unfolding decode_dinode
decode-blit_other dst off src at fits apart = λ i. record {
  i_type = get_int-blit_other dst off src at fits (omega arith) i;
  i_size = get_int-blit_other dst off src (at + 4) fits (omega arith) i;
  i_mod_time = get_int-blit_other dst off src (at + 8) fits (omega arith) i;
  i_block_nr =
      get_int-blit_other dst off src (at + 12) fits (omega arith) i
      ∷ get_int-blit_other dst off src (at + 16) fits (omega arith) i
      ∷ get_int-blit_other dst off src (at + 20) fits (omega arith) i
      ∷ get_int-blit_other dst off src (at + 24) fits (omega arith) i
      ∷ [];
  i_indirect = get_int-blit_other dst off src (at + 28) fits (omega arith) i;
}

find_in-replace_other :
    (chain : List Inode) (nr : ℕ) (j : Inode)
    → nr ≢ j.i_nr
    → find_in nr (replace_in j chain) ≡ find_in nr chain
unfolding find_in replace_in
find_in-replace_other [] nr j ne = refl
find_in-replace_other (x ∷ chain) nr j ne = elim (ℕ_discrete x.i_nr j.i_nr) [
  | yes same ↦ rw (
    eq→== x.i_nr j.i_nr same,
    ne→== j.i_nr nr (λ e. ne (sym e)),
    ne→== x.i_nr nr (λ e. ne (sym e ∙ same)),
  )
  | no o ↦
      rw (ne→== x.i_nr j.i_nr o)
        (ap (λ r. if x.i_nr == nr then some x else r) (find_in-replace_other chain nr j ne))
]

module _ ⦃p : Platform⦄ where
  pub hash_find-replace_other :
      (nr : ℕ) (j : Inode) (w : World p.Dev)
      → nr ≢ j.i_nr
      → hash_find nr (hash_replace j w) ≡ hash_find nr w
  unfolding hash_find hash_replace update_chain
  hash_find-replace_other nr j w ne = elim (ℕ_discrete (hash_fn nr) (hash_fn j.i_nr)) [
    | yes e ↦
        rw (eq→== (hash_fn nr) (hash_fn j.i_nr) e)
          (find_in-replace_other (w.inode_hash_table (hash_fn nr)) nr j ne)
    | no o ↦ rw (ne→== (hash_fn nr) (hash_fn j.i_nr) o)
  ]
