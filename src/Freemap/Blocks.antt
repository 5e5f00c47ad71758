-- ===== src/Freemap/Blocks.antt =====
-- Allocating and releasing data blocks.
use test_fs.Prelude.{
  ℕ, ◌+◌, ◌*◌, ◌/◌, ◌^◌, ◌≤◌, ◌<◌, ◌≡◌, ◌≢◌, refl, ◌∙◌, ap, inr, true, false, some, List, arith,
  length,
}
use test_fs.Bytes.{Byte, CInt, is_neg, slice, zero_bytes}
use test_fs.Bytes.Laws.{length-slice}
use test_fs.Bitmap
use test_fs.Bitmap.{Bitmap, Allocation, allocated, no_space, failed, nr_allocated}
use test_fs.Bitmap.Valid.{IsValid, Updated, is_set}
use test_fs.Bitmap.Alloc.{IsFirstFit, alloc-IsFirstFit}
use test_fs.Bitmap.Count.{first_fit-le, Counts, alloc-Counts}
use test_fs.Platform.{Platform}
use test_fs.World.{World, SuperBlock, done, continue, non_null}
use test_fs.Block.{write_blocks}
use test_fs.Block.Laws.{block_at, read-write_outside}
use test_fs.Freemap.{enospc, take_block, get_block_freemap, write_block_freemap, alloc_block}

-- The order of the areas on the device, the freemap of the data blocks in memory, and the table of
-- checksums, as `testfs_init_super_block` sets them up.
pub record IsReady (s : SuperBlock) (free : Bitmap) : Type 0 where
  pub freemap_before_data : s.sb.block_freemap_start + 2 ≤ s.sb.data_blocks_start
  pub csums_before_data : s.sb.csum_table_start + 60 ≤ s.sb.data_blocks_start
  pub small : s.sb.data_blocks_start < 2 ^ 30
  pub csums : length s.csum_table ≡ 30720
  pub here : s.block_freemap ≡ some free
  pub valid : IsValid free
  pub size : free.nbits ≡ 8192

module _ ⦃p : Platform⦄ where
  -- Blocks of the data area are as before.
  abbrev pub SameData : World p.Dev → World p.Dev → Type 0
  SameData w v = (n : ℕ) → w.fs.sb.data_blocks_start ≤ n → block_at v n ≡ block_at w n

  -- A block was taken: it was the first clear one, and the freemap has it now, in memory and stored.
  pub record Taken (w : World p.Dev) (free : Bitmap) (out : CInt × List Byte) (v : World p.Dev)
      : Type 0 where
    pub index : ℕ
    pub number : out.0 ≡ w.fs.sb.data_blocks_start + index
    pub buffer : out.1 ≡ zero_bytes 512
    pub clear : is_set free index ≡ false
    pub first : (j : ℕ) → j < index → is_set free j ≡ true
    pub low : index ≤ nr_allocated free
    pub map : Bitmap
    pub update : Updated free index true map
    pub count : nr_allocated map ≡ nr_allocated free + 1
    pub fs : v.fs ≡ record w.fs { block_freemap = some map }
    pub same : SameData w v
    pub stored :
        block_at v (w.fs.sb.block_freemap_start + index / 4096)
        ≡ slice map.v (index / 4096 * 512) 512
    pub elsewhere :
        (n : ℕ) → w.fs.sb.block_freemap_start + index / 4096 ≢ n → block_at v n ≡ block_at w n
    pub table : v.inode_hash_table ≡ w.inode_hash_table

  write_block_freemap_lem :
      (w : World p.Dev) (b : Bitmap) (n : ℕ)
      → w.fs.block_freemap ≡ some b
      → write_block_freemap n w
        ≡ done tt (record w {
          dev =
              p.write w.dev
                (w.fs.sb.block_freemap_start + n / 4096)
                1
                (slice b.v (n / 4096 * 512) 512);
        })
  unfolding write_block_freemap write_blocks
  write_block_freemap_lem w b n e = rw e

  -- The state after `testfs_get_block_freemap` took bit `index`.
  abbrev taken : World p.Dev → ℕ → Bitmap → World p.Dev
  taken w index c = record w {
    dev =
        p.write w.dev (w.fs.sb.block_freemap_start + index / 4096) 1
          (slice c.v (index / 4096 * 512) 512);
    fs = record w.fs { block_freemap = some c };
  }

  get_block_freemap_lem :
      (w : World p.Dev) {b : Bitmap} {a : Allocation}
      → w.fs.block_freemap ≡ some b
      → Bitmap.alloc b ≡ a
      → get_block_freemap w ≡ take_block a w
  unfolding get_block_freemap
  get_block_freemap_lem w h e =
      (λ i. continue (non_null (h i) w) (λ b. take_block (Bitmap.alloc b)))
      ∙ ap (λ a. take_block a w) e

  take_block-allocated :
      (w : World p.Dev) (index : ℕ) (c : Bitmap)
      → take_block (allocated index c) w ≡ done index (taken w index c)
  unfolding take_block
  take_block-allocated w index c = rw (
      write_block_freemap_lem (record w { fs = record w.fs { block_freemap = some c } }) c index
        refl)

  alloc_block-allocated :
      (w : World p.Dev) {free : Bitmap} (r : IsReady w.fs free) (block : List Byte) (index : ℕ)
      (c : Bitmap)
      → Bitmap.alloc free ≡ allocated index c
      → index < 2 ^ 31
      → alloc_block block w
        ≡ done (w.fs.sb.data_blocks_start + index, zero_bytes 512) (taken w index c)
  unfolding alloc_block
  alloc_block-allocated w {free} r block index c e small =
      rw (get_block_freemap_lem w r.here e, take_block-allocated w index c, not_neg)
    where
      not_neg : is_neg index ≡ false
      not_neg = ground arith

  -- With every bit set, `testfs_alloc_block` returns -ENOSPC and changes nothing.
  pub alloc_block-full :
      (w : World p.Dev) {free : Bitmap} (r : IsReady w.fs free) (block : List Byte)
      → nr_allocated free ≡ 8192
      → alloc_block block w ≡ done (enospc, block) w
  alloc_block-full w {free} r block full =
      of (Bitmap.alloc free) refl (alloc-Counts r.valid (omega (arith, r.size)))
    where
      stop : Bitmap.alloc free ≡ no_space → alloc_block block w ≡ done (enospc, block) w
      stop e = unfold alloc_block take_block in rw (get_block_freemap_lem w r.here e)

      of :
          (a : Allocation)
          → Bitmap.alloc free ≡ a
          → Counts free a
          → alloc_block block w ≡ done (enospc, block) w
      of (allocated index c) e n = absurd (omega (arith, r.size))
      of no_space e n = stop e
      of failed e n = absurd n

  -- While a bit is clear, `testfs_alloc_block` takes the first one, all before it being set, and
  -- hands out its number and a zero buffer. In memory that bit alone is set; on the device the
  -- block of the freemap that holds it is stored, and every other block is as before.
  pub alloc_block-Taken :
      (w : World p.Dev) {free : Bitmap} (r : IsReady w.fs free) (block : List Byte)
      → nr_allocated free < 8192
      → (out : CInt × List Byte) × (v : World p.Dev) × (alloc_block block w ≡ done out v)
        × Taken w free out v
  alloc_block-Taken w {free} r block room =
      of (Bitmap.alloc free) refl (alloc-IsFirstFit r.valid)
        (alloc-Counts r.valid (omega (arith, r.size)))
    where
      of :
          (a : Allocation)
          → Bitmap.alloc free ≡ a
          → IsFirstFit free a
          → Counts free a
          → (out : CInt × List Byte) × (v : World p.Dev) × (alloc_block block w ≡ done out v)
            × Taken w free out v
      of (allocated index c) e f n = (
        (w.fs.sb.data_blocks_start + index, zero_bytes 512),
        taken w index c,
        alloc_block-allocated w r block index c e (omega (arith, r.size)),
        record {
          index = index;
          number = refl;
          buffer = refl;
          clear = f.1;
          first = f.2;
          low = first_fit-le free index f.0 (omega (arith, r.size)) f.2;
          map = c;
          update = f.3;
          count = n.1;
          fs = refl;
          same = λ k h.
              read-write_outside w.dev (w.fs.sb.block_freemap_start + index / 4096) 1
                (slice c.v (index / 4096 * 512) 512) k (inr (omega (arith, r.size)));
          stored =
              p.read-write_self w.dev (w.fs.sb.block_freemap_start + index / 4096)
                (slice c.v (index / 4096 * 512) 512)
                (omega (
                  arith,
                  length-slice c.v (index / 4096 * 512) 512,
                  f.3.valid.words,
                  f.3.nbits,
                  r.size,
                ));
          elsewhere = λ k ne.
              p.read-write_other w.dev (w.fs.sb.block_freemap_start + index / 4096) k
                (slice c.v (index / 4096 * 512) 512) ne;
          table = refl;
        },
      )
      of no_space e f n = absurd (omega (arith, r.size))
      of failed e f n = absurd f

  -- The file system stays ready, with the new freemap.
  pub Taken-IsReady :
      {w v : World p.Dev} {free : Bitmap} {out : CInt × List Byte}
      → IsReady w.fs free
      → (t : Taken w free out v) → IsReady v.fs t.map
  Taken-IsReady r t =
      let start = ap (λ (s : SuperBlock). s.sb.block_freemap_start) t.fs in
      let area = ap (λ (s : SuperBlock). s.sb.data_blocks_start) t.fs in
      record {
        freemap_before_data = omega (arith, start, area);
        csums_before_data =
            omega (arith, ap (λ (s : SuperBlock). s.sb.csum_table_start) t.fs, area);
        small = omega (arith, area);
        csums = ap (λ (s : SuperBlock). length s.csum_table) t.fs ∙ r.csums;
        here = ap (λ (s : SuperBlock). s.block_freemap) t.fs;
        valid = t.update.valid;
        size = t.update.nbits ∙ r.size;
      }
