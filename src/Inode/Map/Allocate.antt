-- ===== src/Inode/Map/Allocate.antt =====
-- `testfs_allocate_block` of src/inode.c.
use test_fs.Prelude.{
  ℕ, ◌+◌, ◌-◌, ◌*◌, ◌≤◌, ◌<◌, ◌≡◌, ◌≢◌, refl, sym, ◌∙◌, ap, subst, true, List, arith, lt→ltb, ◌==◌,
  eq→==, ne→==, length, length-set, get_or-set_self, get_or-set_ne,
}
use native.Mathlib.Decide.{ℕ_discrete, dec_lt}
use test_fs.Bytes.{Byte, CInt, get_int, zero_bytes}
use test_fs.Bytes.Laws.{length-zero_bytes, get_or-zero_bytes}
use test_fs.Bitmap.{Bitmap, nr_allocated}
use test_fs.Platform.{Platform}
use test_fs.World.{World, DSuperBlock, SuperBlock, Inode, done}
use test_fs.Block.{read_blocks}
use test_fs.Block.Laws.{block_at, length-block_at}
use test_fs.Freemap.Blocks.{Taken, SameData, alloc_block-Taken, Taken-IsReady}
use test_fs.Inode.{
  set_direct, set_indirect, allocate_direct, load_indirect, allocate_indirect, allocate_block,
}
use test_fs.Inode.Map.{phys, phys-direct, phys-none, phys-indirect, phys-same, IsMapped}
use test_fs.Inode.Map.Laid.{IsLaid, IsLaid-grow, IsLaid-indirect}
use test_fs.Inode.Map.Slot.{Reads, Slotted, allocate_slot-Slotted}
use test_fs.Inode.Map.Get.{get_block-Got, not_ltb, not_neg_of}

module _ ⦃p : Platform⦄ where
  -- What an allocation of logical block `l` leaves: `out` is the number, the buffer and the inode.
  pub record Placed (i : Inode) (w : World p.Dev) (free : Bitmap) (l : ℕ)
      (out : CInt × List Byte × Inode) (v : World p.Dev) : Type 0 where
    pub map : Bitmap
    pub mapped : IsMapped out.2 v map
    pub number : phys out.2 v l ≡ out.0
    pub used : out.0 ≢ 0
    pub fresh : phys i w l ≡ 0 → out.1 ≡ zero_bytes 512
    pub old : phys i w l ≢ 0 → out.1 ≡ block_at w (phys i w l)
    pub stays : phys i w l ≢ 0 → out.0 ≡ phys i w l
    pub others : (k : ℕ) → k < 132 → k ≢ l → phys out.2 v k ≡ phys i w k
    pub kept :
        (n : ℕ)
        → w.fs.sb.data_blocks_start ≤ n
        → n ≢ out.2.din.i_indirect
        → block_at v n ≡ block_at w n
    pub size : out.2.din.i_size ≡ i.din.i_size
    pub same_file : (out.2.i_nr ≡ i.i_nr) × (out.2.din.i_type ≡ i.din.i_type)
    pub count : nr_allocated map ≤ nr_allocated free + 2
    pub layout : v.fs.sb ≡ w.fs.sb
    pub table : v.inode_hash_table ≡ w.inode_hash_table

  -- A direct number counts for its own block alone.
  phys-set_direct :
      (i : Inode) (v : World p.Dev) (l n k : ℕ)
      → l < 4
      → k ≢ l
      → phys (set_direct i l n) v k ≡ phys i v k
  phys-set_direct i v l n k h ne = elim (dec_lt k 4) [
    | yes d ↦
        phys-direct i' v k d
        ∙ get_or-set_ne i.din.i_block_nr l k n 0 (λ e. ne (sym e))
        ∙ sym (phys-direct i v k d)
    | no g ↦ elim (ℕ_discrete i.din.i_indirect 0) [
      | yes z ↦ phys-none i' v k (omega arith) z ∙ sym (phys-none i v k (omega arith) z)
      | no o ↦ phys-indirect i' v k (omega arith) o ∙ sym (phys-indirect i v k (omega arith) o)
    ]
  ]
    where
      i' : Inode
      i' = set_direct i l n

  module _ {i : Inode} {w : World p.Dev} {free : Bitmap} (m : IsMapped i w free) where
    layout-Taken :
        {v : World p.Dev} {out : CInt × List Byte} → Taken w free out v → v.fs.sb ≡ w.fs.sb
    layout-Taken t = ap (λ (s : SuperBlock). s.sb) t.fs

    positive : 0 < w.fs.sb.data_blocks_start
    positive = omega (arith, m.ready.freemap_before_data)

    -- The map is read in the data area alone, so it is the same after a block is taken.
    phys-Taken :
        {v : World p.Dev} {out : CInt × List Byte}
        → Taken w free out v
        → (k : ℕ) → phys i v k ≡ phys i w k
    phys-Taken {v} t k =
        phys-same i v w k (λ ne. t.same i.din.i_indirect (m.laid.at_indirect ne).above)

    -- A direct block.
    allocate_direct-Placed :
        (block : List Byte) (l : ℕ)
        → l < 4
        → phys i w l ≡ 0
        → nr_allocated free + 2 ≤ 7680
        → (out : CInt × List Byte × Inode) × (v : World p.Dev) × (allocate_direct i block l w
            ≡ done out v)
          × Placed i w free l out v
    allocate_direct-Placed block l h none room =
        let (a, v, run, t) = alloc_block-Taken w m.ready block (omega arith) in
        let i' = set_direct i l a.0 in
        let at : phys i' v l ≡ a.0 =
          phys-direct i' v l h
          ∙ get_or-set_self i.din.i_block_nr l a.0 0 (omega (arith, m.direct)) in
        let others : (k : ℕ) → k < 132 → k ≢ l → phys i' v k ≡ phys i w k =
          λ k _ ne. phys-set_direct i v l a.0 k h ne ∙ phys-Taken t k in
        (
          (a.0, a.1, i'),
          v,
          unfold allocate_direct in
              rw (run, not_neg_of a.0 (omega (arith, t.number, m.ready.small, t.low))),
          record {
            map = t.map;
            mapped = record {
              ready = Taken-IsReady m.ready t;
              direct = length-set i.din.i_block_nr l a.0 ∙ m.direct;
              laid =
                  subst (λ d. IsLaid (phys i' v) i.din.i_indirect d t.map)
                    (sym (ap (λ (s : DSuperBlock). s.data_blocks_start) (layout-Taken t)))
                    (IsLaid-grow m.laid t.update t.clear (omega (arith, t.low)) positive l
                      (omega arith) none (at ∙ t.number) others);
            };
            number = at;
            used = λ z. (omega (arith, t.number, positive));
            fresh = λ _. t.buffer;
            old = λ ne. absurd (ne none);
            stays = λ ne. absurd (ne none);
            others = others;
            kept = λ n hn _. t.same n hn;
            size = refl;
            same_file = (refl, refl);
            count = omega (arith, t.count);
            layout = layout-Taken t;
            table = t.table;
          },
        )

    -- From the allocation at an int of the indirect block, in a state that differs from the first
    -- at most in that the indirect block was taken.
    Slotted-Placed :
        {j : Inode} {u v : World p.Dev} {b : Bitmap} {f : ℕ → CInt} {l : ℕ} {out : CInt × List Byte}
        → Slotted j u b f l out v
        → length j.din.i_block_nr ≡ 4
        → ((k : ℕ) → k < 132 → f k ≡ phys i w k)
        → phys i w l ≡ 0
        → SameData w u
        → j.din.i_size ≡ i.din.i_size
        → (j.i_nr ≡ i.i_nr) × (j.din.i_type ≡ i.din.i_type)
        → nr_allocated b ≤ nr_allocated free + 1
        → u.fs.sb ≡ w.fs.sb
        → u.inode_hash_table ≡ w.inode_hash_table
        → Placed i w free l (out.0, out.1, j) v
    Slotted-Placed s direct same none data_same size same_file count layout table = record {
      map = s.map;
      mapped = record { ready = s.ready; direct = direct; laid = s.laid };
      number = s.number;
      used = s.used;
      fresh = λ _. s.buffer;
      old = λ ne. absurd (ne none);
      stays = λ ne. absurd (ne none);
      others = λ k hk ne. s.others k hk ne ∙ same k hk;
      kept = λ n hn ne.
          s.kept n (omega (arith, ap (λ (d : DSuperBlock). d.data_blocks_start) layout)) ne
          ∙ data_same n hn;
      size = size;
      same_file = same_file;
      count = omega (arith, s.count);
      layout = s.layout ∙ layout;
      table = s.table ∙ table;
    }

    -- A block behind an indirect block that is there.
    slot-Placed :
        (block : List Byte) (l : ℕ)
        → 4 ≤ l
        → l < 132
        → i.din.i_indirect ≢ 0
        → phys i w l ≡ 0
        → nr_allocated free + 2 ≤ 7680
        → (out : CInt × List Byte × Inode) × (v : World p.Dev) × (allocate_indirect i block
              (l - 4)
              w
            ≡ done out v)
          × Placed i w free l out v
    unfolding allocate_indirect load_indirect read_blocks
    slot-Placed block l low high there none room =
        let reads : Reads i (block_at w i.din.i_indirect) (phys i w) = record {
          direct = λ k d. sym (phys-direct i w k d);
          ints = λ k lk _. sym (phys-indirect i w k lk there);
          length_indirect = length-block_at w i.din.i_indirect;
          number = there;
        } in
        let (out, v, run, s) =
          allocate_slot-Slotted m.ready m.laid reads l low high block none (omega arith) in
        (
          (out.0, out.1, i),
          v,
          rw (lt→ltb (l - 4) 128 (omega arith), ne→== _ 0 there) run,
          Slotted-Placed s m.direct (λ k _. refl) none (λ n _. refl) refl (refl, refl) (omega arith)
              refl refl,
        )

    -- The zero buffer reads as the map of an inode with no indirect block.
    zero-Reads :
        {indirect : List Byte} (n : CInt)
        → i.din.i_indirect ≡ 0
        → indirect ≡ zero_bytes 512
        → n ≢ 0
        → Reads (set_indirect i n) indirect (phys i w)
    unfolding get_int
    zero-Reads n absent zero ne = record {
      direct = λ k d. sym (phys-direct i w k d);
      ints = λ k lk _.
          ap (λ b. get_int b (4 * (k - 4))) zero
          ∙ omega (
            arith,
            get_or-zero_bytes 512 (4 * (k - 4)),
            get_or-zero_bytes 512 (4 * (k - 4) + 1),
            get_or-zero_bytes 512 (4 * (k - 4) + 2),
            get_or-zero_bytes 512 (4 * (k - 4) + 3),
          )
          ∙ sym (phys-none i w k lk absent);
      length_indirect = ap length zero ∙ length-zero_bytes 512;
      number = ne;
    }

    -- The first block behind an indirect block, which is allocated with it.
    first_slot-Placed :
        (block : List Byte) (l : ℕ)
        → 4 ≤ l
        → l < 132
        → i.din.i_indirect ≡ 0
        → nr_allocated free + 2 ≤ 7680
        → (out : CInt × List Byte × Inode) × (v : World p.Dev) × (allocate_indirect i block
              (l - 4)
              w
            ≡ done out v)
          × Placed i w free l out v
    unfolding allocate_indirect load_indirect
    first_slot-Placed block l low high absent room =
        let (a, u, run, t) = alloc_block-Taken w m.ready p.stack (omega arith) in
        let ne : a.0 ≢ 0 = omega (arith, t.number, positive) in
        let layout = layout-Taken t in
        let laid =
          subst (λ d. IsLaid (phys i w) a.0 d t.map)
            (sym (ap (λ (s : DSuperBlock). s.data_blocks_start) layout))
            (subst (λ n. IsLaid (phys i w) n w.fs.sb.data_blocks_start t.map) (sym t.number)
              (IsLaid-indirect m.laid t.update t.clear (omega (arith, t.low)) positive absent)) in
        let (out, v, go, s) =
          allocate_slot-Slotted (Taken-IsReady m.ready t) laid (zero-Reads a.0 absent t.buffer ne) l
            low high block (phys-none i w l low absent) (omega (arith, t.count)) in
        (
          (out.0, out.1, set_indirect i a.0),
          v,
          rw
              (
                lt→ltb (l - 4) 128 (omega arith),
                eq→== _ 0 absent,
                run,
                not_neg_of a.0 (omega (arith, t.number, m.ready.small, t.low)),
              )
              go,
          Slotted-Placed s m.direct (λ k _. refl) (phys-none i w l low absent) t.same refl
              (refl, refl) (omega (arith, t.count)) layout t.table,
        )

    -- With two blocks to spare among those that have a checksum, `testfs_allocate_block` succeeds
    -- for every block below the limit of a file. The inode then maps the block to the number
    -- returned; the buffer holds the block if it was mapped before, else zeros; no other logical
    -- block changes its number, no data block other than the indirect one its content, and the
    -- blocks of the file stay apart from each other.
    pub allocate_block-Placed :
        (block : List Byte) (l : ℕ)
        → l < 132
        → nr_allocated free + 2 ≤ 7680
        → (out : CInt × List Byte × Inode) × (v : World p.Dev) × (allocate_block i block l w
            ≡ done out v)
          × Placed i w free l out v
    unfolding allocate_block
    allocate_block-Placed block l high room =
        let (got, run, g) = get_block-Got m block l high in
        elim (ℕ_discrete (phys i w l) 0) [
          | no ne ↦ (
            (got.0, got.1, i),
            w,
            rw (run, ne→== got.0 0 (λ z. ne (sym g.number ∙ z))),
            record {
              map = free;
              mapped = m;
              number = sym g.number;
              used = λ z. ne (sym g.number ∙ z);
              fresh = λ z. absurd (ne z);
              old = λ _. g.buffer ne;
              stays = λ _. g.number;
              others = λ k _ _. refl;
              kept = λ n _ _. refl;
              size = refl;
              same_file = (refl, refl);
              count = omega arith;
              layout = refl;
              table = refl;
            },
          )
          | yes z ↦
              let start : (got.0 == 0) ≡ true = eq→== got.0 0 (g.number ∙ z) in
              elim (dec_lt l 4) [
                | yes d ↦
                    let (out, v, go, s) = allocate_direct-Placed got.1 l d z room in
                    (out, v, rw (run, start, lt→ltb l 4 d) go, s)
                | no far ↦ elim (ℕ_discrete i.din.i_indirect 0) [
                  | yes absent ↦
                      let (out, v, go, s) =
                        first_slot-Placed got.1 l (omega arith) high absent room in
                      (out, v, rw (run, start, not_ltb l 4 (omega arith)) go, s)
                  | no there ↦
                      let (out, v, go, s) = slot-Placed got.1 l (omega arith) high there z room in
                      (out, v, rw (run, start, not_ltb l 4 (omega arith)) go, s)
                ]
              ]
        ]
