-- ===== src/Alternate/Numbers.antt =====
-- The numbers of blocks on the alternate path, src/inode_alternate_common.c: those of the dinode and
-- those of the indirect block, in memory once it is loaded.
use test_fs.Prelude.{
  ℕ, ◌+◌, ◌-◌, ◌*◌, ◌^◌, ◌≤◌, ◌<◌, ◌≡◌, ◌≢◌, refl, sym, ◌∙◌, ap, Bool, true, false, some, List,
  arith, length, get_or, ltb, ◌==◌, lt→ltb, eq→==, ne→==, if◌then◌else◌,
}
use native.Mathlib.Decide.{ℕ_discrete, dec_lt}
use test_fs.Bytes.{Byte, CInt, get_int}
use test_fs.Bitmap
use test_fs.Bitmap.{Bitmap, Allocation, allocated, no_space, failed, nr_allocated}
use test_fs.Bitmap.Valid.{Updated}
use test_fs.Bitmap.Alloc.{IsFirstFit, alloc-IsFirstFit}
use test_fs.Bitmap.Count.{first_fit-le, Counts, alloc-Counts}
use test_fs.Platform.{Platform}
use test_fs.World.{World, DInode, Inode, done, continue, non_null}
use test_fs.Block.{read_blocks}
use test_fs.Block.Laws.{block_at, length-block_at}
use test_fs.Freemap.{take_block_alternate, alloc_block_alternate}
use test_fs.Freemap.Blocks.{IsReady}
use test_fs.Inode.Map.Get.{not_neg_of, not_ltb, not_leb}
use test_fs.Alternate.{ensure_indirect_loaded, inode_log_to_phy}

module _ ⦃p : Platform⦄ where
  -- The indirect block of an inode, in memory or not.
  abbrev pub ints_of : Inode → World p.Dev → List Byte
  ints_of i w = if i.indirect_loaded then i.indirect else block_at w i.din.i_indirect

  -- The physical number of a logical block, 0 if it has none.
  unfoldable pub number_of : Inode → World p.Dev → ℕ → CInt
  number_of i w l =
      if ltb l 4
      then get_or i.din.i_block_nr l 0
      else if i.din.i_indirect == 0
      then 0
      else get_int (ints_of i w) (4 * (l - 4))

  -- The inode with its indirect block in memory.
  pub record IsLoaded (i : Inode) (w : World p.Dev) (j : Inode) : Type 0 where
    pub din : j.din ≡ i.din
    pub loaded : j.indirect_loaded ≡ true
    pub ints : j.indirect ≡ ints_of i w

  pub ensure-IsLoaded :
      (i : Inode) (w : World p.Dev)
      → (j : Inode) × (ensure_indirect_loaded i w ≡ done j w) × IsLoaded i w j
  unfolding ensure_indirect_loaded read_blocks
  ensure-IsLoaded i w = cases i.indirect_loaded refl
    where
      cases :
          (b : Bool)
          → i.indirect_loaded ≡ b
          → (j : Inode) × (ensure_indirect_loaded i w ≡ done j w) × IsLoaded i w j
      cases true e = (i, rw e refl, record { din = refl; loaded = e; ints = rw e refl })
      cases false e = (
        record i { indirect = block_at w i.din.i_indirect; indirect_loaded = true },
        rw e refl,
        record { din = refl; loaded = refl; ints = rw e refl },
      )

  -- What `testfs_inode_log_to_phy` leaves of the inode.
  pub record Looked (i : Inode) (w : World p.Dev) (l : ℕ) (j : Inode) : Type 0 where
    pub din : j.din ≡ i.din
    pub buffer : length i.indirect ≡ 512 → length j.indirect ≡ 512
    pub again :
        number_of i w l ≢ 0
        → (u : World p.Dev) → inode_log_to_phy j l u ≡ done (number_of i w l, j) u

  pub length-ints_of :
      (i : Inode) (w : World p.Dev) → length i.indirect ≡ 512 → length (ints_of i w) ≡ 512
  length-ints_of i w h = of i.indirect_loaded
    where
      of : (b : Bool) → length (if b then i.indirect else block_at w i.din.i_indirect) ≡ 512
      of true = h
      of false = length-block_at w i.din.i_indirect

  pub direct-run :
      (i : Inode) (w : World p.Dev) (l : ℕ)
      → l < 4
      → get_or i.din.i_block_nr l 0 < 2 ^ 31
      → inode_log_to_phy i l w ≡ done (get_or i.din.i_block_nr l 0, i) w
  unfolding inode_log_to_phy
  direct-run i w l h small = rw (lt→ltb l 4 h, not_neg_of (get_or i.din.i_block_nr l 0) small) refl

  -- With the indirect block in memory the device is not read.
  pub loaded-run :
      (i : Inode) (w : World p.Dev) (l : ℕ)
      → 4 ≤ l
      → l < 132
      → i.din.i_indirect ≢ 0
      → i.indirect_loaded ≡ true
      → inode_log_to_phy i l w ≡ done (get_int i.indirect (4 * (l - 4)), i) w
  unfolding inode_log_to_phy ensure_indirect_loaded
  loaded-run i w l low high there loaded =
      rw
        (not_ltb l 4 low, not_leb 128 (l - 4) (omega arith), ne→== i.din.i_indirect 0 there, loaded)
        refl

  pub number_of-direct :
      (i : Inode) (w : World p.Dev) (l : ℕ) → l < 4 → number_of i w l ≡ get_or i.din.i_block_nr l 0
  unfolding number_of
  number_of-direct i w l h = rw (lt→ltb l 4 h) refl

  pub number_of-none :
      (i : Inode) (w : World p.Dev) (l : ℕ) → 4 ≤ l → i.din.i_indirect ≡ 0 → number_of i w l ≡ 0
  unfolding number_of
  number_of-none i w l h e = rw (not_ltb l 4 h, eq→== i.din.i_indirect 0 e) refl

  pub number_of-indirect :
      (i : Inode) (w : World p.Dev) (l : ℕ)
      → 4 ≤ l
      → i.din.i_indirect ≢ 0
      → number_of i w l ≡ get_int (ints_of i w) (4 * (l - 4))
  unfolding number_of
  number_of-indirect i w l h ne = rw (not_ltb l 4 h, ne→== i.din.i_indirect 0 ne) refl

  none-run :
      (i : Inode) (w : World p.Dev) (l : ℕ)
      → 4 ≤ l
      → l < 132
      → i.din.i_indirect ≡ 0
      → inode_log_to_phy i l w ≡ done (0, i) w
  unfolding inode_log_to_phy
  none-run i w l low high e =
      rw (not_ltb l 4 low, not_leb 128 (l - 4) (omega arith), eq→== i.din.i_indirect 0 e) refl

  indirect-run :
      (i : Inode) (w : World p.Dev) (l : ℕ) {j : Inode}
      → 4 ≤ l
      → l < 132
      → i.din.i_indirect ≢ 0
      → ensure_indirect_loaded i w ≡ done j w
      → inode_log_to_phy i l w ≡ done (get_int j.indirect (4 * (l - 4)), j) w
  unfolding inode_log_to_phy
  indirect-run i w l low high ne e =
      rw (not_ltb l 4 low, not_leb 128 (l - 4) (omega arith), ne→== i.din.i_indirect 0 ne, e) refl

  -- `testfs_inode_log_to_phy` gives the number of a block below the limit of a file, and leaves an
  -- inode that gives it again without the device.
  pub inode_log_to_phy-Looked :
      (i : Inode) (w : World p.Dev) (l : ℕ)
      → l < 132
      → number_of i w l < 2 ^ 31
      → (j : Inode) × (inode_log_to_phy i l w ≡ done (number_of i w l, j) w) × Looked i w l j
  inode_log_to_phy-Looked i w l high small = elim (dec_lt l 4) [
    | yes d ↦
        let at = number_of-direct i w l d in
        let run : (u : World p.Dev) → inode_log_to_phy i l u ≡ done (number_of i w l, i) u =
          λ u. direct-run i u l d (omega (arith, at)) ∙ ap (λ n. done (n, i) u) (sym at) in
        (i, run w, record { din = refl; buffer = λ h. h; again = λ _. run })
    | no far ↦ elim (ℕ_discrete i.din.i_indirect 0) [
      | yes e ↦
          let at = number_of-none i w l (omega arith) e in
          (
            i,
            none-run i w l (omega arith) high e ∙ ap (λ n. done (n, i) w) (sym at),
            record { din = refl; buffer = λ h. h; again = λ used. absurd (used at) },
          )
      | no ne ↦
          let (j, e, q) = ensure-IsLoaded i w in
          let at : get_int j.indirect (4 * (l - 4)) ≡ number_of i w l =
            ap (λ b. get_int b (4 * (l - 4))) q.ints
            ∙ sym (number_of-indirect i w l (omega arith) ne) in
          (
            j,
            indirect-run i w l (omega arith) high ne e ∙ ap (λ n. done (n, j) w) at,
            record {
              din = q.din;
              buffer = λ h. ap length q.ints ∙ length-ints_of i w h;
              again = λ _ u.
                  loaded-run j u l (omega arith) high
                    (λ z. ne (sym (ap (λ (d : DInode). d.i_indirect) q.din) ∙ z)) q.loaded
                  ∙ ap (λ n. done (n, j) u) at;
            },
          )
    ]
  ]

  -- A block was taken in memory alone.
  pub record TakenLater (w : World p.Dev) (free : Bitmap) (n : CInt) (v : World p.Dev)
      : Type 0 where
    pub index : ℕ
    pub number : n ≡ w.fs.sb.data_blocks_start + index
    pub low : index ≤ nr_allocated free
    pub map : Bitmap
    pub update : Updated free index true map
    pub count : nr_allocated map ≡ nr_allocated free + 1
    pub world : v ≡ record w { fs = record w.fs { block_freemap = some map } }
    pub ready : IsReady v.fs map

  alloc_block_alternate-run :
      (w : World p.Dev) {free : Bitmap} {a : Allocation}
      → w.fs.block_freemap ≡ some free
      → Bitmap.alloc free ≡ a
      → alloc_block_alternate w ≡ take_block_alternate a w
  unfolding alloc_block_alternate
  alloc_block_alternate-run w here e =
      (λ k. continue (non_null (here k) w) (λ b. take_block_alternate (Bitmap.alloc b)))
      ∙ ap (λ a. take_block_alternate a w) e

  -- While a bit is clear, `testfs_alloc_block_alternate` takes a block and leaves the device alone.
  pub alloc_block_alternate-TakenLater :
      (w : World p.Dev) {free : Bitmap} (r : IsReady w.fs free)
      → nr_allocated free < 8192
      → (n : CInt) × (v : World p.Dev) × (alloc_block_alternate w ≡ done n v)
        × TakenLater w free n v
  unfolding take_block_alternate
  alloc_block_alternate-TakenLater w {free} r room =
      of (Bitmap.alloc free) refl (alloc-IsFirstFit r.valid)
        (alloc-Counts r.valid (omega (arith, r.size)))
    where
      of :
          (a : Allocation)
          → Bitmap.alloc free ≡ a
          → IsFirstFit free a
          → Counts free a
          → (n : CInt) × (v : World p.Dev) × (alloc_block_alternate w ≡ done n v)
            × TakenLater w free n v
      of (allocated index c) e f n = (
        w.fs.sb.data_blocks_start + index,
        record w { fs = record w.fs { block_freemap = some c } },
        alloc_block_alternate-run w r.here e,
        record {
          index = index;
          number = refl;
          low = first_fit-le free index f.0 (omega (arith, r.size)) f.2;
          map = c;
          update = f.3;
          count = n.1;
          world = refl;
          ready = record {
            freemap_before_data = r.freemap_before_data;
            csums_before_data = r.csums_before_data;
            small = r.small;
            csums = r.csums;
            here = refl;
            valid = f.3.valid;
            size = f.3.nbits ∙ r.size;
          };
        },
      )
      of no_space e f n = absurd (omega (arith, r.size))
      of failed e f n = absurd f
