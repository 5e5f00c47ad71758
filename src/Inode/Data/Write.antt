-- ===== src/Inode/Data/Write.antt =====
-- `testfs_write_data` of src/inode.c, with its loop.
use test_fs.Prelude.{
  ℕ, zero, suc, ◌+◌, ◌-◌, ◌*◌, ◌/◌, ◌%◌, ◌^◌, ◌≤◌, ◌<◌, ◌≡◌, ◌≢◌, refl, sym, ◌∙◌, ap, ◌⊎◌, inl, inr,
  true, false, List, arith, leb, length, get_or,
}
use native.Mathlib.Decide.{dec_lt, dec_le}
use test_fs.Bytes.{Byte, le_int, max_int, slice}
use test_fs.Bytes.Laws.{length-slice, get_or-slice}
use test_fs.Bitmap.{Bitmap, nr_allocated}
use test_fs.Platform.{Platform}
use test_fs.World.{World, Inode, done}
use test_fs.Inode.{set_size}
use test_fs.Inode.File.{write_from, write_data}
use test_fs.Inode.Map.{phys, IsMapped}
use test_fs.Inode.Map.Laid.{IsLaid-same}
use test_fs.Inode.Map.Get.{is_pos_of, not_neg_of, phys-small}
use test_fs.Inode.Map.Allocate.{allocate_block-Placed}
use test_fs.Inode.Data.Store.{Stepped, store-Stepped}
use test_fs.Inode.Data.Bytes.{max_size, byte_at, step_stays, step_mapped, step_inside, step_outside}

pub le→leb : (a b : ℕ) → a ≤ b → leb a b ≡ true
le→leb a b h = ground arith

pub lt→leb : (a b : ℕ) → b < a → leb a b ≡ false
lt→leb a b h = ground arith

pub le_int_lem : (a b : ℕ) → a ≤ b → b < 2 ^ 31 → le_int a b ≡ true
le_int_lem a b h s = le→leb ((a + 2 ^ 31) % 2 ^ 32) ((b + 2 ^ 31) % 2 ^ 32) (omega arith)

module _ ⦃p : Platform⦄ where
  -- The bytes of `buf` from `done` on are in the file from `start + done` on.
  pub record Written (i : Inode) (w : World p.Dev) (free : Bitmap) (start : ℕ) (buf : List Byte)
      (from : ℕ) (j : Inode) (v : World p.Dev) : Type 0 where
    pub map : Bitmap
    pub mapped : IsMapped j v map
    pub inside :
        (q : ℕ)
        → start + from ≤ q
        → q < start + length buf
        → (phys j v (q / 512) ≢ 0) × (byte_at j v q ≡ get_or buf (q - start) 0)
    pub outside :
        (q : ℕ)
        → q < max_size
        → (q < start + from) ⊎ (start + length buf ≤ q)
        → phys i w (q / 512) ≢ 0
        → byte_at j v q ≡ byte_at i w q
    pub stays : (k : ℕ) → k < 132 → phys i w k ≢ 0 → phys j v k ≡ phys i w k
    pub same_file : (j.i_nr ≡ i.i_nr) × (j.din.i_type ≡ i.din.i_type)
    pub size : j.din.i_size ≡ max_int i.din.i_size (start + length buf)
    pub layout : v.fs.sb ≡ w.fs.sb
    pub table : v.inode_hash_table ≡ w.inode_hash_table

  -- The size is not part of the map.
  phys-set_size : (i : Inode) (w : World p.Dev) (n k : ℕ) → phys (set_size i n) w k ≡ phys i w k
  unfolding phys
  phys-set_size i w n k = refl

  set_size-IsMapped :
      {i : Inode} {w : World p.Dev} {free : Bitmap} (n : ℕ)
      → IsMapped i w free
      → IsMapped (set_size i n) w free
  set_size-IsMapped {i} {w} n m = record {
    ready = m.ready;
    direct = m.direct;
    laid = IsLaid-same m.laid (λ k _. phys-set_size i w n k);
  }

  -- The round that writes the rest of the buffer.
  last-Written :
      {i : Inode} {w : World p.Dev} {free : Bitmap} {l o : ℕ} {j : Inode} {v : World p.Dev}
      (start : ℕ) (buf : List Byte) (from : ℕ)
      → Stepped i w free l o (slice buf from (length buf - from)) j v
      → l * 512 + o ≡ start + from
      → from < length buf
      → o + (length buf - from) ≤ 512
      → Written i w free start buf from (set_size j (max_int j.din.i_size (start + length buf))) v
  unfolding phys
  last-Written {i} {w} {l} {o} {j} {v} start buf from s at left fits =
      let size : length (slice buf from (length buf - from)) ≡ length buf - from =
        omega (arith, length-slice buf from (length buf - from)) in
      record {
        map = s.map;
        mapped = set_size-IsMapped _ s.mapped;
        inside = λ q lo hi. (
          step_mapped s (omega arith) q (omega arith) (omega arith),
          step_inside s (omega arith) q (omega arith) (omega arith)
              ∙ get_or-slice buf from (length buf - from) (q - (l * 512 + o)) (omega arith)
              ∙ ap (λ k. get_or buf k 0) (omega arith),
        );
        outside = λ q small out ne. step_outside s (omega arith) q small (shift q out) ne;
        stays = step_stays s (omega arith);
        same_file = s.same_file;
        size = ap (λ n. max_int n (start + length buf)) s.size;
        layout = s.layout;
        table = s.table;
      }
    where
      shift :
          (q : ℕ)
          → (q < start + from) ⊎ (start + length buf ≤ q)
          → (q < l * 512 + o) ⊎ (l * 512 + o + length (slice buf from (length buf - from)) ≤ q)
      shift q (inl b) = inl (omega arith)
      shift q (inr a) = inr (omega (arith, length-slice buf from (length buf - from)))

  -- A round that fills its block, and the rounds after it.
  more-Written :
      {i : Inode} {w : World p.Dev} {free : Bitmap} {l o : ℕ} {j h : Inode} {u v : World p.Dev}
      (start : ℕ) (buf : List Byte) (from : ℕ)
      (s : Stepped i w free l o (slice buf from (512 - o)) j u)
      → l * 512 + o ≡ start + from
      → o < 512
      → from + (512 - o) < length buf
      → start + length buf ≤ max_size
      → Written j u s.map start buf (from + (512 - o)) h v
      → Written i w free start buf from h v
  more-Written {i} {w} {l} {o} {j} {h} {u} {v} start buf from s at small left fits r = record {
    map = r.map;
    mapped = r.mapped;
    inside = λ q lo hi. elim (dec_lt q (start + (from + (512 - o)))) [
      | no g ↦ r.inside q (omega arith) hi
      | yes b ↦
          let used : phys j u (q / 512) ≢ 0 =
            step_mapped s whole q (omega arith) (omega (arith, size)) in
          (
            λ z. used (sym (r.stays (q / 512) (omega arith) used) ∙ z),
            r.outside q (omega arith) (inl b) used
                ∙ step_inside s whole q (omega arith) (omega (arith, size))
                ∙ get_or-slice buf from (512 - o) (q - (l * 512 + o)) (omega arith)
                ∙ ap (λ k. get_or buf k 0) (place q (omega arith)),
          )
    ];
    outside = λ q hq out ne.
        let kept = step_stays s whole (q / 512) (omega arith) ne in
        r.outside q hq (later q out) (λ z. ne (sym kept ∙ z))
        ∙ step_outside s whole q hq (shift q out) ne;
    stays = λ k hk ne.
        let kept = step_stays s whole k hk ne in r.stays k hk (λ z. ne (sym kept ∙ z)) ∙ kept;
    same_file = (r.same_file.0 ∙ s.same_file.0, r.same_file.1 ∙ s.same_file.1);
    size = r.size ∙ ap (λ n. max_int n (start + length buf)) s.size;
    layout = r.layout ∙ s.layout;
    table = r.table ∙ s.table;
  }
    where
      size : length (slice buf from (512 - o)) ≡ 512 - o
      size = omega (arith, length-slice buf from (512 - o))

      whole : o + length (slice buf from (512 - o)) ≤ 512
      whole = omega (arith, length-slice buf from (512 - o))

      place : (q : ℕ) → start + from ≤ q → from + (q - (l * 512 + o)) ≡ q - start
      place q lo = omega arith

      later :
          (q : ℕ)
          → (q < start + from) ⊎ (start + length buf ≤ q)
          → (q < start + (from + (512 - o))) ⊎ (start + length buf ≤ q)
      later q (inl b) = inl (omega arith)
      later q (inr a) = inr a

      shift :
          (q : ℕ)
          → (q < start + from) ⊎ (start + length buf ≤ q)
          → (q < l * 512 + o) ⊎ (l * 512 + o + length (slice buf from (512 - o)) ≤ q)
      shift q (inl b) = inl (omega arith)
      shift q (inr a) = inr (omega (arith, length-slice buf from (512 - o)))

  -- The rounds left are enough, and each takes at most two blocks.
  write_from-Written :
      (fuel : ℕ) {i : Inode} {w : World p.Dev} {free : Bitmap} (start : ℕ) (buf : List Byte)
      (o from : ℕ)
      → IsMapped i w free
      → o ≡ (start + from) % 512
      → from < length buf
      → start + length buf ≤ max_size
      → (length buf - from + o) / 512 < fuel
      → nr_allocated free + 2 * fuel ≤ 7680
      → (j : Inode) × (v : World p.Dev) × (write_from fuel i start buf o from w ≡ done (0, j) v)
        × Written i w free start buf from j v
  unfolding write_from
  write_from-Written zero start buf o from m at left fits rounds room = absurd (omega arith)
  write_from-Written (suc fuel) {i} {w} {free} start buf o from m at left fits rounds room =
      let l : ℕ = (start + from) / 512 in
      let high : l < 132 = omega arith in
      let (out, u, run, s) = allocate_block-Placed m p.stack l high (omega arith) in
      let small : out.0 < 2 ^ 31 = omega (arith, s.number, phys-small s.mapped l high) in
      elim (dec_le (length buf - from) (512 - o)) [
        | yes short ↦
            let (v, stored, t) =
              store-Stepped m high s o (slice buf from (length buf - from))
                (omega (arith, length-slice buf from (length buf - from))) in
            (
              set_size out.2 (max_int out.2.din.i_size (start + length buf)),
              v,
              rw (
                run,
                is_pos_of out.0 s.used small,
                not_neg_of out.0 small,
                le→leb (length buf - from) (512 - o) short,
                stored,
              ),
              last-Written start buf from t (omega arith) left (omega arith),
            )
        | no long ↦
            let (v, stored, t) =
              store-Stepped m high s o (slice buf from (512 - o))
                (omega (arith, length-slice buf from (512 - o))) in
            let (j, z, rest, r) =
              write_from-Written fuel start buf 0 (from + (512 - o)) t.mapped (omega arith)
                (omega arith) fits (omega arith) (omega (arith, t.count)) in
            (
              j,
              z,
              rw
                  (
                    run,
                    is_pos_of out.0 s.used small,
                    not_neg_of out.0 small,
                    lt→leb (length buf - from) (512 - o) (omega arith),
                    stored,
                  )
                  rest,
              more-Written start buf from t (omega arith) (omega arith) (omega arith) fits r,
            )
      ]

  -- `testfs_write_data` of a buffer that is not empty, from an offset up to the size of the file,
  -- within the largest size of a file and with room in the freemap, succeeds: it returns 0, the
  -- file has the bytes of the buffer at their offsets, every other byte of a mapped block is as
  -- before, no mapped block changes its number, and the size is the maximum of the old one and the
  -- end of the write. The blocks of the file stay apart.
  pub write_data-Written :
      {i : Inode} {w : World p.Dev} {free : Bitmap} (start : ℕ) (buf : List Byte)
      → IsMapped i w free
      → 0 < length buf
      → start ≤ i.din.i_size
      → i.din.i_size < 2 ^ 31
      → start + length buf ≤ max_size
      → nr_allocated free + 2 * (length buf / 512 + 2) ≤ 7680
      → (j : Inode) × (v : World p.Dev) × (write_data i start buf w ≡ done (0, j) v)
        × Written i w free start buf 0 j v
  unfolding write_data
  write_data-Written {i} start buf m some_left inside bounded fits room =
      let (j, v, run, r) =
        write_from-Written (length buf / 512 + 2) start buf (start % 512) 0 m (omega arith)
          some_left fits (omega arith) room in
      (j, v, rw (le_int_lem start i.din.i_size inside bounded) run, r)
