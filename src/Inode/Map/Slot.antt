-- ===== src/Inode/Map/Slot.antt =====
-- `testfs_allocate_block` at an int of the indirect block.
use test_fs.Prelude.{
  ℕ, ◌+◌, ◌-◌, ◌*◌, ◌≤◌, ◌<◌, ◌≡◌, ◌≢◌, sym, ◌∙◌, ap, subst, inl, inr, List, arith, length, get_or,
}
use native.Mathlib.Decide.{dec_lt}
use test_fs.Bytes.{Byte, CInt, get_int, set_int, zero_bytes}
use test_fs.Bytes.Laws.{get_int-set_int_self, get_int-set_int_other, length-set_int}
use test_fs.Bitmap.{Bitmap, nr_allocated}
use test_fs.Platform.{Platform}
use test_fs.World.{World, DSuperBlock, SuperBlock, Inode, done}
use test_fs.Block.{write_blocks}
use test_fs.Block.Laws.{block_at}
use test_fs.Freemap.Blocks.{IsReady, alloc_block-Taken, Taken-IsReady}
use test_fs.Inode.{allocate_slot}
use test_fs.Inode.Map.{phys, phys-direct, phys-indirect}
use test_fs.Inode.Map.Laid.{IsLaid, IsLaid-grow}
use test_fs.Inode.Map.Get.{is_pos_of}

module _ ⦃p : Platform⦄ where
  -- `f` is the map that the inode has, with the ints of `indirect` for its indirect block.
  pub record Reads (i : Inode) (indirect : List Byte) (f : ℕ → CInt) : Type 0 where
    pub direct : (k : ℕ) → k < 4 → get_or i.din.i_block_nr k 0 ≡ f k
    pub ints : (k : ℕ) → 4 ≤ k → k < 132 → get_int indirect (4 * (k - 4)) ≡ f k
    pub length_indirect : length indirect ≡ 512
    pub number : i.din.i_indirect ≢ 0

  -- The ints of the buffer with the new number in it.
  ints-written :
      {i : Inode} {indirect : List Byte} {f : ℕ → CInt} (reads : Reads i indirect f) (l n k : ℕ)
      → 4 ≤ l
      → l < 132
      → 4 ≤ k
      → k < 132
      → k ≢ l
      → get_int (set_int indirect (4 * (l - 4)) n) (4 * (k - 4)) ≡ f k
  ints-written {indirect} reads l n k low high lk hk ne =
      get_int-set_int_other indirect (4 * (l - 4)) (4 * (k - 4)) n
        (omega (arith, reads.length_indirect))
        (elim (dec_lt k l) [ yes b ↦ inl (omega arith) | no g ↦ inr (omega arith) ])
      ∙ reads.ints k lk hk

  -- What the allocation at logical block `l` leaves of the map `f`.
  pub record Slotted (i : Inode) (w : World p.Dev) (free : Bitmap) (f : ℕ → CInt) (l : ℕ)
      (out : CInt × List Byte) (v : World p.Dev) : Type 0 where
    pub map : Bitmap
    pub ready : IsReady v.fs map
    pub laid : IsLaid (phys i v) i.din.i_indirect v.fs.sb.data_blocks_start map
    pub number : phys i v l ≡ out.0
    pub used : out.0 ≢ 0
    pub buffer : out.1 ≡ zero_bytes 512
    pub others : (k : ℕ) → k < 132 → k ≢ l → phys i v k ≡ f k
    pub kept :
        (n : ℕ) → w.fs.sb.data_blocks_start ≤ n → n ≢ i.din.i_indirect → block_at v n ≡ block_at w n
    pub count : nr_allocated map ≡ nr_allocated free + 1
    pub layout : v.fs.sb ≡ w.fs.sb
    pub table : v.inode_hash_table ≡ w.inode_hash_table

  module _ {i : Inode} {w : World p.Dev} {free : Bitmap} {f : ℕ → CInt} {indirect : List Byte}
      (ready : IsReady w.fs free) (laid : IsLaid f i.din.i_indirect w.fs.sb.data_blocks_start free)
      (reads : Reads i indirect f) (l : ℕ) (low : 4 ≤ l) (high : l < 132) where
    pub allocate_slot-Slotted :
        (block : List Byte)
        → f l ≡ 0
        → nr_allocated free < 7680
        → (out : CInt × List Byte) × (v : World p.Dev) × (allocate_slot i block indirect (l - 4) w
            ≡ done (out.0, out.1, i) v)
          × Slotted i w free f l out v
    allocate_slot-Slotted block none room =
        let (a, u, run, t) = alloc_block-Taken w ready block (omega arith) in
        let layout : u.fs.sb ≡ w.fs.sb = ap (λ (s : SuperBlock). s.sb) t.fs in
        let area : u.fs.sb.data_blocks_start ≡ w.fs.sb.data_blocks_start =
          ap (λ (s : DSuperBlock). s.data_blocks_start) layout in
        let filled = set_int indirect (4 * (l - 4)) a.0 in
        let size : length filled ≡ 512 =
          length-set_int indirect (4 * (l - 4)) a.0 (omega (arith, reads.length_indirect))
          ∙ reads.length_indirect in
        let v = record u { dev = p.write u.dev i.din.i_indirect 1 filled } in
        let stored : block_at v i.din.i_indirect ≡ filled =
          p.read-write_self u.dev i.din.i_indirect filled size in
        let at : (k : ℕ) → 4 ≤ k → phys i v k ≡ get_int filled (4 * (k - 4)) =
          λ k lk. phys-indirect i v k lk reads.number ∙ ap (λ b. get_int b (4 * (k - 4))) stored in
        let number : phys i v l ≡ a.0 =
          at l low
          ∙ get_int-set_int_self indirect (4 * (l - 4)) a.0 (omega (arith, reads.length_indirect))
              (omega (arith, t.number, t.low, ready.small)) in
        let others : (k : ℕ) → k < 132 → k ≢ l → phys i v k ≡ f k = λ k hk ne. elim (dec_lt k 4) [
          | yes d ↦ phys-direct i v k d ∙ reads.direct k d
          | no g ↦ at k (omega arith) ∙ ints-written reads l a.0 k low high (omega arith) hk ne
        ] in
        (
          a,
          v,
          unfold allocate_slot write_blocks in
              rw (
                run,
                is_pos_of a.0 (omega (arith, t.number, ready.freemap_before_data))
                    (omega (arith, t.number, t.low, ready.small)),
              ),
          record {
            map = t.map;
            ready = Taken-IsReady ready t;
            laid =
                subst (λ d. IsLaid (phys i v) i.din.i_indirect d t.map) (sym area)
                  (IsLaid-grow laid t.update t.clear (omega (arith, t.low))
                    (omega (arith, ready.freemap_before_data)) l high none (number ∙ t.number)
                    others);
            number = number;
            used = omega (arith, t.number, ready.freemap_before_data);
            buffer = t.buffer;
            others = others;
            kept = λ n hn ne.
                p.read-write_other u.dev i.din.i_indirect n filled (λ e. ne (sym e)) ∙ t.same n hn;
            count = t.count;
            layout = layout;
            table = t.table;
          },
        )
