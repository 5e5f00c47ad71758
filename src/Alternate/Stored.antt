-- ===== src/Alternate/Stored.antt =====
-- Writing and reading a block on the alternate path: `testfs_file_write_block` and
-- `testfs_file_read_block` of src/inode_alternate_sync.c.
use test_fs.Prelude.{
  ℕ, ◌+◌, ◌-◌, ◌*◌, ◌/◌, ◌^◌, ◌≤◌, ◌<◌, ◌≡◌, ◌≢◌, refl, sym, ◌∙◌, ap, true, List, arith, length,
  lt→ltb, eq→==, ne→==, set,
}
use native.Mathlib.Decide.{ℕ_discrete}
use test_fs.Bytes.{Byte, CInt, set_int}
use test_fs.Bitmap.{Bitmap, nr_allocated}
use test_fs.Platform.{Platform}
use test_fs.World.{World, DInode, DSuperBlock, SuperBlock, Inode, done}
use test_fs.Block.{read_blocks, write_blocks}
use test_fs.Block.Laws.{block_at}
use test_fs.Csum.{calculate_csum, set_csum, xor_from}
use test_fs.Csum.Table.{sub_int_lem, in_table}
use test_fs.Freemap.Blocks.{IsReady}
use test_fs.Inode.Map.Get.{not_neg_of, is_pos_of}
use test_fs.Alternate.{block_for_write, file_write_block, file_read_block}
use test_fs.Alternate.Numbers.{number_of, inode_log_to_phy-Looked}
use test_fs.Alternate.Given.{Given, allocate_block_alternate-Given}

module _ ⦃p : Platform⦄ where
  -- Storing a checksum in the table in memory.
  set_csum-run :
      (u : World p.Dev) (n csum : CInt)
      → u.fs.sb.data_blocks_start ≤ n
      → n < u.fs.sb.data_blocks_start + 7680
      → u.fs.sb.data_blocks_start < 2 ^ 30
      → (s : SuperBlock) × (set_csum n csum u ≡ done tt (record u { fs = s })) × (s.sb ≡ u.fs.sb)
  unfolding set_csum
  set_csum-run u n csum low high small = (
    record (u.fs) {
      csum_table = set_int u.fs.csum_table (4 * (n - u.fs.sb.data_blocks_start)) csum;
      csum_block_dirty = set u.fs.csum_block_dirty ((n - u.fs.sb.data_blocks_start) * 4 / 512) true;
    },
    rw
        (
          sub_int_lem n u.fs.sb.data_blocks_start low (omega arith),
          in_table (n - u.fs.sb.data_blocks_start) (omega arith),
          lt→ltb ((n - u.fs.sb.data_blocks_start) * 4 / 512) 60 (omega arith),
        )
        refl,
    refl,
  )

  -- The block that a write goes to.
  block_for_write-Given :
      (i : Inode) (w : World p.Dev) {free : Bitmap} (l : ℕ)
      → IsReady w.fs free
      → nr_allocated free + 2 ≤ 7680
      → length i.din.i_block_nr ≡ 4
      → length i.indirect ≡ 512
      → l < 132
      → (number_of i w l ≢ 0
          → (w.fs.sb.data_blocks_start ≤ number_of i w l)
            × (number_of i w l < w.fs.sb.data_blocks_start + 7680))
      → (n : CInt) × (j : Inode) × (v : World p.Dev) × (block_for_write i l w ≡ done (n, j) v)
        × Given w l n j v
  unfolding block_for_write
  block_for_write-Given i w l r room direct buffer high used =
      let (j, run, q) = inode_log_to_phy-Looked i w l high small in
      elim (ℕ_discrete (number_of i w l) 0) [
        | yes z ↦
            let (n, h, v, go, g) =
              allocate_block_alternate-Given j w r room
                (ap (λ (d : DInode). length d.i_block_nr) q.din ∙ direct) (q.buffer buffer) l
                high in
            (n, h, v, rw (run, eq→== (number_of i w l) 0 z) go, g)
        | no ne ↦ (
          number_of i w l,
          j,
          w,
          rw (run, ne→== (number_of i w l) 0 ne) refl,
          record {
            again = q.again ne;
            above = (used ne).0;
            below = (used ne).1;
            dev = refl;
            sb = refl;
            table = refl;
          },
        )
      ]
    where
      small : number_of i w l < 2 ^ 31
      small = elim (ℕ_discrete (number_of i w l) 0) [
        | yes z ↦ omega (arith, z)
        | no ne ↦ omega (arith, (used ne).1, r.small)
      ]

  -- With the freemap and the table of checksums loaded and two blocks to spare, for a block below
  -- the limit of a file that has a number in the data area or none yet: `testfs_file_write_block`
  -- of a whole block returns 0, writes that one block of the device and no other, and
  -- `testfs_file_read_block` of the same block then gives back the buffer.
  pub file_read_block-file_write_block :
      (i : Inode) (w : World p.Dev) {free : Bitmap} (l : ℕ) (buf : List Byte)
      → IsReady w.fs free
      → nr_allocated free + 2 ≤ 7680
      → length i.din.i_block_nr ≡ 4
      → length i.indirect ≡ 512
      → l < 132
      → (number_of i w l ≢ 0
          → (w.fs.sb.data_blocks_start ≤ number_of i w l)
            × (number_of i w l < w.fs.sb.data_blocks_start + 7680))
      → length buf ≡ 512
      → (n : CInt) × (j : Inode) × (v : World p.Dev) × (file_write_block i l buf w ≡ done (0, j) v)
        × (file_read_block j l v ≡ done (buf, j) v)
        × (w.fs.sb.data_blocks_start ≤ n)
        × ((b : ℕ) → b ≢ n → block_at v b ≡ block_at w b)
  unfolding file_write_block file_read_block calculate_csum write_blocks read_blocks
  file_read_block-file_write_block i w l buf r room direct buffer high used whole =
      let (n, j, v, run, g) = block_for_write-Given i w l r room direct buffer high used in
      let u : World p.Dev = record v { dev = p.write v.dev n 1 buf } in
      let start : v.fs.sb.data_blocks_start ≡ w.fs.sb.data_blocks_start =
        ap (λ (d : DSuperBlock). d.data_blocks_start) g.sb in
      let (s, summed, layout) =
        set_csum-run u n (xor_from buf 128 0 0) (omega (arith, start, g.above))
          (omega (arith, start, g.below)) (omega (arith, start, r.small)) in
      let small : n < 2 ^ 31 = omega (arith, g.below, r.small) in
      (
        n,
        j,
        record u { fs = s },
        rw (run, not_neg_of n small, summed) refl,
        rw
            (
              g.again (record u { fs = s }),
              is_pos_of n (λ z. omega (arith, z, g.above, r.freemap_before_data)) small,
            )
            (ap (λ b. done (b, j) (record u { fs = s })) (p.read-write_self v.dev n buf whole)),
        g.above,
        λ b ne. p.read-write_other v.dev n b buf (λ e. ne (sym e)) ∙ ap (λ d. p.read d b 1) g.dev,
      )
