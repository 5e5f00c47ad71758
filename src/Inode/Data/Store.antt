-- ===== src/Inode/Data/Store.antt =====
-- One round of `testfs_write_data`: a block is allocated, filled in and stored.
use test_fs.Prelude.{ℕ, ◌+◌, ◌≤◌, ◌<◌, ◌≡◌, ◌≢◌, sym, ◌∙◌, ap, subst, List, arith, length}
use native.Mathlib.Decide.{ℕ_discrete}
use test_fs.Bytes.{Byte, CInt, blit, zero_bytes}
use test_fs.Bytes.Laws.{length-blit, length-zero_bytes}
use test_fs.Bitmap.{Bitmap, nr_allocated}
use test_fs.Platform.{Platform}
use test_fs.World.{World, DSuperBlock, Inode, done}
use test_fs.Block.{write_blocks}
use test_fs.Block.Laws.{block_at, length-block_at}
use test_fs.Csum.{xor_from, calculate_csum}
use test_fs.Csum.Table.{put_csum-Summed}
use test_fs.Freemap.Blocks.{IsReady}
use test_fs.Inode.File.{store_block}
use test_fs.Inode.Map.{phys, phys-same, IsMapped}
use test_fs.Inode.Map.Laid.{InData, IsLaid, IsLaid-same}
use test_fs.Inode.Map.Allocate.{Placed}

module _ ⦃p : Platform⦄ where
  -- A data block has the new content; the other data blocks are as before.
  pub record Stored (u : World p.Dev) (free : Bitmap) (n : CInt) (b : List Byte) (v : World p.Dev)
      : Type 0 where
    pub ready : IsReady v.fs free
    pub content : block_at v n ≡ b
    pub others : (m : ℕ) → u.fs.sb.data_blocks_start ≤ m → m ≢ n → block_at v m ≡ block_at u m
    pub layout : v.fs.sb ≡ u.fs.sb
    pub table : v.inode_hash_table ≡ u.inode_hash_table

  store_block-Stored :
      (u : World p.Dev) {free : Bitmap} (n : CInt) (block : List Byte) (o : ℕ) (chunk : List Byte)
      → IsReady u.fs free
      → u.fs.sb.data_blocks_start ≤ n
      → n < u.fs.sb.data_blocks_start + 7680
      → length block ≡ 512
      → o + length chunk ≤ 512
      → (v : World p.Dev) × (store_block n block o chunk u ≡ done tt v)
        × Stored u free n (blit block o chunk) v
  unfolding store_block calculate_csum write_blocks
  store_block-Stored u n block o chunk r low high size fits =
      let b = blit block o chunk in
      let u' = record u { dev = p.write u.dev n 1 b } in
      let (v, run, s) = put_csum-Summed u' n (xor_from b 128 0 0) r low high in
      (
        v,
        run,
        record {
          ready = s.ready;
          content =
              s.same n low
              ∙ p.read-write_self u.dev n b (length-blit block o chunk (omega arith) ∙ size);
          others = λ m lm ne. s.same m lm ∙ p.read-write_other u.dev n m b (λ e. ne (sym e));
          layout = s.layout;
          table = s.table;
        },
      )

  -- Block `l` of the file has `chunk` at offset `o`, over what was there, or over zeros if there was
  -- no block; the other blocks of the file have the content and the number that they had.
  pub record Stepped (i : Inode) (w : World p.Dev) (free : Bitmap) (l o : ℕ) (chunk : List Byte)
      (j : Inode) (v : World p.Dev) : Type 0 where
    pub map : Bitmap
    pub mapped : IsMapped j v map
    pub here : phys j v l ≢ 0
    pub fresh : phys i w l ≡ 0 → block_at v (phys j v l) ≡ blit (zero_bytes 512) o chunk
    pub old : phys i w l ≢ 0 → block_at v (phys j v l) ≡ blit (block_at w (phys i w l)) o chunk
    pub stays : phys i w l ≢ 0 → phys j v l ≡ phys i w l
    pub others : (k : ℕ) → k < 132 → k ≢ l → phys j v k ≡ phys i w k
    pub kept :
        (k : ℕ)
        → k < 132
        → k ≢ l
        → phys i w k ≢ 0
        → block_at v (phys j v k) ≡ block_at w (phys i w k)
    pub size : j.din.i_size ≡ i.din.i_size
    pub same_file : (j.i_nr ≡ i.i_nr) × (j.din.i_type ≡ i.din.i_type)
    pub count : nr_allocated map ≤ nr_allocated free + 2
    pub layout : v.fs.sb ≡ w.fs.sb
    pub table : v.inode_hash_table ≡ w.inode_hash_table

  module _ {i : Inode} {w : World p.Dev} {free : Bitmap} {l : ℕ} {out : CInt × List Byte × Inode}
      {u : World p.Dev} (m : IsMapped i w free) (high : l < 132) (s : Placed i w free l out u) where
    number-InData : InData u.fs.sb.data_blocks_start s.map out.0
    number-InData =
        subst (InData u.fs.sb.data_blocks_start s.map) s.number
          (s.mapped.laid.blocks l high (λ z. s.used (sym s.number ∙ z)))

    length-buffer : length out.1 ≡ 512
    length-buffer = elim (ℕ_discrete (phys i w l) 0) [
      | yes z ↦ ap length (s.fresh z) ∙ length-zero_bytes 512
      | no ne ↦ ap length (s.old ne) ∙ length-block_at w (phys i w l)
    ]

    beside_number : out.2.din.i_indirect ≢ out.0
    beside_number e =
        s.mapped.laid.beside l high (λ z. s.used (sym s.number ∙ z)) (s.number ∙ sym e)

    Stored-Stepped :
        {o : ℕ} {chunk : List Byte} {v : World p.Dev}
        → Stored u s.map out.0 (blit out.1 o chunk) v
        → Stepped i w free l o chunk out.2 v
    Stored-Stepped {o} {chunk} {v} t =
        let same : (k : ℕ) → phys out.2 v k ≡ phys out.2 u k = λ k. phys-same out.2 v u k (λ ne.
          t.others out.2.din.i_indirect (s.mapped.laid.at_indirect ne).above beside_number) in
        let at : phys out.2 v l ≡ out.0 = same l ∙ s.number in
        record {
          map = s.map;
          mapped = record {
            ready = t.ready;
            direct = s.mapped.direct;
            laid =
                subst (λ d. IsLaid (phys out.2 v) out.2.din.i_indirect d s.map)
                  (sym (ap (λ (d : DSuperBlock). d.data_blocks_start) t.layout))
                  (IsLaid-same s.mapped.laid (λ k _. same k));
          };
          here = λ z. s.used (sym at ∙ z);
          fresh = λ z. ap (block_at v) at ∙ t.content ∙ ap (λ b. blit b o chunk) (s.fresh z);
          old = λ ne. ap (block_at v) at ∙ t.content ∙ ap (λ b. blit b o chunk) (s.old ne);
          stays = λ ne. at ∙ s.stays ne;
          others = λ k hk ne. same k ∙ s.others k hk ne;
          kept = λ k hk ne used.
              let e : phys out.2 u k ≡ phys i w k = s.others k hk ne in
              let d = m.laid.blocks k hk used in
              ap (block_at v) (same k ∙ e)
              ∙ t.others (phys i w k)
                  (omega (arith, d.above, ap (λ (d : DSuperBlock). d.data_blocks_start) s.layout))
                  (λ z. ne (
                    s.mapped.laid.apart k l hk high (λ y. used (sym e ∙ y)) (e ∙ z ∙ sym s.number)))
              ∙ s.kept (phys i w k) d.above
                  (λ z. s.mapped.laid.beside k hk (λ y. used (sym e ∙ y)) (e ∙ z));
          size = s.size;
          same_file = s.same_file;
          count = s.count;
          layout = t.layout ∙ s.layout;
          table = t.table ∙ s.table;
        }

    -- After the allocation, the store of the filled buffer succeeds.
    pub store-Stepped :
        (o : ℕ) (chunk : List Byte)
        → o + length chunk ≤ 512
        → (v : World p.Dev) × (store_block out.0 out.1 o chunk u ≡ done tt v)
          × Stepped i w free l o chunk out.2 v
    store-Stepped o chunk fits =
        let d = number-InData in
        let (v, run, t) =
          store_block-Stored u out.0 out.1 o chunk s.mapped.ready d.above d.below length-buffer
            fits in
        (v, run, Stored-Stepped t)
