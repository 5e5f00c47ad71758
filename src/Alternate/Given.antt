-- ===== src/Alternate/Given.antt =====
-- Giving a logical block a number on the alternate path: `testfs_allocate_block_alternate` of
-- src/inode_alternate_common.c.
use test_fs.Prelude.{
  ℕ, ◌+◌, ◌-◌, ◌*◌, ◌^◌, ◌≤◌, ◌<◌, ◌≡◌, ◌≢◌, refl, sym, ◌∙◌, ap, true, arith, length, get_or,
  lt→ltb, eq→==, ne→==, get_or-set_self,
}
use native.Mathlib.Decide.{ℕ_discrete, dec_lt}
use test_fs.Bytes.{CInt, zero_bytes}
use test_fs.Bytes.Laws.{get_int-set_int_self, length-zero_bytes}
use test_fs.Bitmap.{Bitmap, nr_allocated}
use test_fs.Platform.{Platform}
use test_fs.World.{World, DInode, Inode, done}
use test_fs.Freemap.Blocks.{IsReady}
use test_fs.Inode.{set_direct, set_indirect}
use test_fs.Inode.Map.Get.{not_neg_of, not_ltb}
use test_fs.Alternate.{
  inode_log_to_phy, set_slot, allocate_slot_alternate, allocate_block_alternate,
}
use test_fs.Alternate.Numbers.{
  length-ints_of, direct-run, loaded-run, ensure-IsLoaded, TakenLater,
  alloc_block_alternate-TakenLater,
}

module _ ⦃p : Platform⦄ where
  -- The inode gives a data block for logical block `l`, and nothing but the freemap in memory and
  -- the inode changed.
  pub record Given (w : World p.Dev) (l : ℕ) (n : CInt) (j : Inode) (v : World p.Dev) : Type 0 where
    pub again : (u : World p.Dev) → inode_log_to_phy j l u ≡ done (n, j) u
    pub above : w.fs.sb.data_blocks_start ≤ n
    pub below : n < w.fs.sb.data_blocks_start + 7680
    pub dev : v.dev ≡ w.dev
    pub sb : v.fs.sb ≡ w.fs.sb
    pub table : v.inode_hash_table ≡ w.inode_hash_table

  module _ (i : Inode) (w : World p.Dev) {free : Bitmap} (r : IsReady w.fs free)
      (room : nr_allocated free + 2 ≤ 7680) (direct : length i.din.i_block_nr ≡ 4)
      (buffer : length i.indirect ≡ 512) (l : ℕ) (high : l < 132) where
    direct-Given :
        {n : CInt} {v : World p.Dev}
        → TakenLater w free n v
        → l < 4
        → Given w l n (set_direct i l n) v
    direct-Given {n} {v} t h = record {
      again = λ u.
          direct-run (set_direct i l n) u l h (omega (arith, at, t.number, r.small, t.low))
          ∙ ap (λ k. done (k, set_direct i l n) u) at;
      above = omega (arith, t.number);
      below = omega (arith, t.number, t.low);
      dev = ap (λ (u : World p.Dev). u.dev) t.world;
      sb = ap (λ (u : World p.Dev). u.fs.sb) t.world;
      table = ap (λ (u : World p.Dev). u.inode_hash_table) t.world;
    }
      where
        at : get_or ((set_direct i l n).din.i_block_nr) l 0 ≡ n
        at = get_or-set_self i.din.i_block_nr l n 0 (omega (arith, direct))

    -- A number that is put into a loaded indirect block.
    set_slot-again :
        (j : Inode) (n : CInt)
        → 4 ≤ l
        → j.din.i_indirect ≢ 0
        → j.indirect_loaded ≡ true
        → length j.indirect ≡ 512
        → n < 2 ^ 32
        → (u : World p.Dev)
        → inode_log_to_phy (set_slot j (l - 4) n) l u ≡ done (n, set_slot j (l - 4) n) u
    set_slot-again j n low there loaded size small u =
        loaded-run (set_slot j (l - 4) n) u l low high there loaded
        ∙ ap (λ k. done (k, set_slot j (l - 4) n) u)
            (get_int-set_int_self j.indirect (4 * (l - 4)) n (omega (arith, size)) small)

    slot-Given :
        {n : CInt} {v : World p.Dev}
        → TakenLater w free n v
        → 4 ≤ l
        → (j : Inode) × (u : World p.Dev) × (allocate_slot_alternate i (l - 4) n v ≡ done (n, j) u)
          × Given w l n j u
    unfolding allocate_slot_alternate
    slot-Given {n} {v} t low = elim (ℕ_discrete i.din.i_indirect 0) [
      | no there ↦
          let (j, run, q) = ensure-IsLoaded (record i { dirty = true }) v in
          (
            set_slot j (l - 4) n,
            v,
            rw (ne→== i.din.i_indirect 0 there, run) refl,
            record {
              again =
                  set_slot-again j n low
                    (λ z. there (sym (ap (λ (d : DInode). d.i_indirect) q.din) ∙ z)) q.loaded
                    (ap length q.ints ∙ length-ints_of (record i { dirty = true }) v buffer)
                    (omega (arith, t.number, r.small, t.low));
              above = omega (arith, t.number);
              below = omega (arith, t.number, t.low);
              dev = ap (λ (u : World p.Dev). u.dev) t.world;
              sb = ap (λ (u : World p.Dev). u.fs.sb) t.world;
              table = ap (λ (u : World p.Dev). u.inode_hash_table) t.world;
            },
          )
      | yes absent ↦
          let start = ap (λ (u : World p.Dev). u.fs.sb.data_blocks_start) t.world in
          let (m, u, run, s) =
            alloc_block_alternate-TakenLater v t.ready (omega (arith, t.count)) in
          let j : Inode = record (set_indirect i m) {
            indirect = zero_bytes 512;
            indirect_loaded = true;
          } in
          (
            set_slot j (l - 4) n,
            u,
            rw
                (
                  eq→== i.din.i_indirect 0 absent,
                  run,
                  not_neg_of m (omega (arith, s.number, s.low, t.count, start, r.small)),
                )
                refl,
            record {
              again =
                  set_slot-again j n low
                    (λ z. omega (arith, z, s.number, start, r.freemap_before_data)) refl
                    (length-zero_bytes 512) (omega (arith, t.number, r.small, t.low));
              above = omega (arith, t.number);
              below = omega (arith, t.number, t.low);
              dev =
                  ap (λ (x : World p.Dev). x.dev) s.world ∙ ap (λ (x : World p.Dev). x.dev) t.world;
              sb =
                  ap (λ (x : World p.Dev). x.fs.sb) s.world
                  ∙ ap (λ (x : World p.Dev). x.fs.sb) t.world;
              table =
                  ap (λ (x : World p.Dev). x.inode_hash_table) s.world
                  ∙ ap (λ (x : World p.Dev). x.inode_hash_table) t.world;
            },
          )
    ]

    -- `testfs_allocate_block_alternate` succeeds for every block of a file.
    pub allocate_block_alternate-Given :
        (n : CInt) × (j : Inode) × (v : World p.Dev) × (allocate_block_alternate i l w
          ≡ done (n, j) v)
        × Given w l n j v
    unfolding allocate_block_alternate
    allocate_block_alternate-Given =
        let (n, v, run, t) = alloc_block_alternate-TakenLater w r (omega arith) in
        let sign = not_neg_of n (omega (arith, t.number, r.small, t.low)) in
        elim (dec_lt l 4) [
          | yes d ↦ (n, set_direct i l n, v, rw (run, sign, lt→ltb l 4 d) refl, direct-Given t d)
          | no far ↦
              let (j, u, slot, g) = slot-Given t (omega arith) in
              (n, j, u, rw (run, sign, not_ltb l 4 (omega arith)) slot, g)
        ]
