-- ===== src/Csum/Table.antt =====
-- Storing a checksum in the table, and checking a block against it.
use test_fs.Prelude.{
  ℕ, zero, suc, bit_xor, ap, drop, get_or, length, [], ◌∷◌, ◌+◌, ◌-◌, ◌*◌, ◌/◌, ◌^◌, ◌≤◌, ◌<◌, ◌≡◌,
  ◌≢◌, refl, ◌∙◌, inl, inr, true, List, ◌&&◌, not, arith, ltb, ◌==◌, if◌then◌else◌,
}
use native.Mathlib.Decide.{dec_lt}
use test_fs.Bytes.{Byte, CInt, is_neg, sub_int, slice, get_int, set_int}
use test_fs.Bytes.Laws.{get_int-set_int_self, get_int-set_int_other, length-set_int, length-slice}
use test_fs.Bitmap.{Bitmap}
use test_fs.Platform.{Platform}
use test_fs.World.{World, done}
use test_fs.Block.{read_blocks, write_blocks}
use test_fs.Block.Laws.{block_at, length-block_at, read-write_outside}
use test_fs.Freemap.Blocks.{IsReady, SameData}
use test_fs.Csum.{einval, xor_from, put_csum, write_csum, calculate_csum, verify_csum}

pub sub_int_lem : (a b : ℕ) → b ≤ a → a < 2 ^ 32 → sub_int a b ≡ a - b
sub_int_lem a b h s = omega arith

pub in_table : (k : ℕ) → k < 7680 → (not (is_neg k) && ltb k 7680) ≡ true
in_table k h = ground arith

-- The ints of a buffer, four bytes each with the least first, and the xor of numbers.
abbrev pub ints_of : List Byte → List CInt
ints_of (a ∷ b ∷ c ∷ d ∷ rest) = (a + 256 * b + 65536 * c + 16777216 * d) ∷ ints_of rest
ints_of _ = []

abbrev pub xor_all : CInt → List CInt → CInt
xor_all csum [] = csum
xor_all csum (x ∷ xs) = xor_all (bit_xor csum x) xs

drop-cons :
    (n : ℕ) (xs : List Byte) (x : Byte) (rest : List Byte)
    → drop n xs ≡ x ∷ rest
    → (get_or xs n 0 ≡ x) × (drop (n + 1) xs ≡ rest)
drop-cons zero [] x rest e = cc
drop-cons zero (y ∷ ys) x rest e = (cc e, cc e)
drop-cons (suc n) [] x rest e = cc
drop-cons (suc n) (y ∷ ys) x rest e =
    let (here, after) = drop-cons n ys x rest e in
    (here, ap (λ k. drop k (y ∷ ys)) (same n) ∙ after)
  where
    same : (n : ℕ) → suc n + 1 ≡ suc (n + 1)
    same n = omega arith

-- The loop of `testfs_calculate_csum` takes the ints of the rest of its buffer in their order.
xor_from-ints_of :
    (buf : List Byte) (rounds i csum : ℕ) (bs : List Byte)
    → drop (4 * i) buf ≡ bs
    → length bs ≡ 4 * rounds
    → xor_from buf rounds i csum ≡ xor_all csum (ints_of bs)
unfolding xor_from get_int
xor_from-ints_of buf zero i csum [] e size = refl
xor_from-ints_of buf zero i csum (a ∷ bs) e size = absurd (omega arith)
xor_from-ints_of buf (suc rounds) i csum [] e size = absurd (omega arith)
xor_from-ints_of buf (suc rounds) i csum (a ∷ []) e size = absurd (omega arith)
xor_from-ints_of buf (suc rounds) i csum (a ∷ b ∷ []) e size = absurd (omega arith)
xor_from-ints_of buf (suc rounds) i csum (a ∷ b ∷ c ∷ []) e size = absurd (omega arith)
xor_from-ints_of buf (suc rounds) i csum (a ∷ b ∷ c ∷ d ∷ rest) e size =
    let (at_a, e1) = drop-cons (4 * i) buf a (b ∷ c ∷ d ∷ rest) e in
    let (at_b, e2) = drop-cons (4 * i + 1) buf b (c ∷ d ∷ rest) e1 in
    let (at_c, e3) =
      drop-cons (4 * i + 2) buf c (d ∷ rest) (ap (λ k. drop k buf) (one (4 * i) 1) ∙ e2) in
    let (at_d, e4) = drop-cons (4 * i + 3) buf d rest (ap (λ k. drop k buf) (one (4 * i) 2) ∙ e3) in
    rw (at_a, at_b, at_c, at_d)
      (xor_from-ints_of buf rounds (i + 1) (bit_xor csum (a + 256 * b + 65536 * c + 16777216 * d))
        rest (ap (λ k. drop k buf) (four i) ∙ e4) (omega arith))
  where
    one : (n k : ℕ) → n + suc k ≡ n + k + 1
    one n k = omega arith

    four : (i : ℕ) → 4 * (i + 1) ≡ 4 * i + 3 + 1
    four i = omega arith

module _ ⦃p : Platform⦄ where
  -- The entry of a data block in the table.
  abbrev pub csum_of : World p.Dev → CInt → CInt
  csum_of w n = get_int w.fs.csum_table (4 * (n - w.fs.sb.data_blocks_start))

  -- The block of the device that holds that entry.
  abbrev pub csum_block : World p.Dev → CInt → ℕ
  csum_block w n = w.fs.sb.csum_table_start + (n - w.fs.sb.data_blocks_start) * 4 / 512

  -- The table has `csum` for block `n` and is otherwise as before; the block of the device with the
  -- entry is stored, and all others are as before.
  pub record Summed (w : World p.Dev) (free : Bitmap) (n csum : CInt) (v : World p.Dev)
      : Type 0 where
    pub ready : IsReady v.fs free
    pub entry : csum < 2 ^ 32 → csum_of v n ≡ csum
    pub others :
        (m : ℕ)
        → w.fs.sb.data_blocks_start ≤ m
        → m < w.fs.sb.data_blocks_start + 7680
        → m ≢ n
        → csum_of v m ≡ csum_of w m
    pub same : SameData w v
    pub stored :
        block_at v (csum_block w n)
        ≡ slice v.fs.csum_table ((n - w.fs.sb.data_blocks_start) * 4 / 512 * 512) 512
    pub elsewhere : (m : ℕ) → csum_block w n ≢ m → block_at v m ≡ block_at w m
    pub layout : v.fs.sb ≡ w.fs.sb
    pub table : v.inode_hash_table ≡ w.inode_hash_table

  abbrev summed : World p.Dev → ℕ → CInt → World p.Dev
  summed w k csum =
      let bytes = set_int w.fs.csum_table (4 * k) csum in
      let nr = k * 4 / 512 in
      record w {
        dev = p.write w.dev (w.fs.sb.csum_table_start + nr) 1 (slice bytes (nr * 512) 512);
        fs = record w.fs { csum_table = bytes };
      }

  put_csum-run :
      (w : World p.Dev) {free : Bitmap} (n csum : CInt)
      → IsReady w.fs free
      → w.fs.sb.data_blocks_start ≤ n
      → n < w.fs.sb.data_blocks_start + 7680
      → put_csum n csum w ≡ done tt (summed w (n - w.fs.sb.data_blocks_start) csum)
  unfolding put_csum write_csum write_blocks
  put_csum-run w n csum r low high = rw (
    sub_int_lem n w.fs.sb.data_blocks_start low (omega (arith, r.small)),
    in_table (n - w.fs.sb.data_blocks_start) (omega arith),
  )

  -- For a data block that has a checksum, `testfs_put_csum` passes its assert and stores the checksum
  -- in the table in memory, where no other entry changes. The block of the device for that entry then
  -- holds what the table has there, and every other block of the device is as before.
  pub put_csum-Summed :
      (w : World p.Dev) {free : Bitmap} (n csum : CInt)
      → IsReady w.fs free
      → w.fs.sb.data_blocks_start ≤ n
      → n < w.fs.sb.data_blocks_start + 7680
      → (v : World p.Dev) × (put_csum n csum w ≡ done tt v) × Summed w free n csum v
  put_csum-Summed w {free} n csum r low high = (
    summed w k csum,
    put_csum-run w n csum r low high,
    record {
      ready = record {
        freemap_before_data = r.freemap_before_data;
        csums_before_data = r.csums_before_data;
        small = r.small;
        csums = length-set_int table (4 * k) csum (omega (arith, r.csums)) ∙ r.csums;
        here = r.here;
        valid = r.valid;
        size = r.size;
      };
      entry = λ small. get_int-set_int_self table (4 * k) csum (omega (arith, r.csums)) small;
      others = λ m lm hm ne.
          get_int-set_int_other table (4 * k) (4 * (m - w.fs.sb.data_blocks_start)) csum
            (omega (arith, r.csums))
            (elim (dec_lt m n) [ yes b ↦ inl (omega arith) | no g ↦ inr (omega arith) ]);
      same = λ m lm.
          read-write_outside w.dev (w.fs.sb.csum_table_start + k * 4 / 512) 1
            (slice (set_int table (4 * k) csum) (k * 4 / 512 * 512) 512) m
            (inr (omega (arith, r.csums_before_data)));
      stored =
          p.read-write_self w.dev (w.fs.sb.csum_table_start + k * 4 / 512)
            (slice (set_int table (4 * k) csum) (k * 4 / 512 * 512) 512)
            (omega (
              arith,
              length-slice (set_int table (4 * k) csum) (k * 4 / 512 * 512) 512,
              length-set_int table (4 * k) csum (omega (arith, r.csums)),
              r.csums,
            ));
      elsewhere = λ m ne.
          p.read-write_other w.dev (w.fs.sb.csum_table_start + k * 4 / 512) m
            (slice (set_int table (4 * k) csum) (k * 4 / 512 * 512) 512) ne;
      layout = refl;
      table = refl;
    },
  )
    where
      table : List Byte
      table = w.fs.csum_table

      k : ℕ
      k = n - w.fs.sb.data_blocks_start

  -- `testfs_verify_csum` of a data block that has a checksum returns 0 when the table has for it the
  -- xor of the little-endian ints that the bytes of the block make up, else -EINVAL, and changes
  -- nothing.
  pub verify_csum_lem :
      (w : World p.Dev) {free : Bitmap} (n : CInt)
      → IsReady w.fs free
      → w.fs.sb.data_blocks_start ≤ n
      → n < w.fs.sb.data_blocks_start + 7680
      → verify_csum n w
        ≡ done (if xor_all 0 (ints_of (block_at w n)) == csum_of w n then 0 else einval) w
  unfolding verify_csum calculate_csum read_blocks
  verify_csum_lem w n r low high = rw (
    sub_int_lem n w.fs.sb.data_blocks_start low (omega (arith, r.small)),
    in_table (n - w.fs.sb.data_blocks_start) (omega arith),
    xor_from-ints_of (block_at w n) 128 0 0 (block_at w n) refl (length-block_at w n),
  )
