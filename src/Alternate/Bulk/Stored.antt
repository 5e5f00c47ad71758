-- ===== src/Alternate/Bulk/Stored.antt =====
-- One round of step 3 of `testfs_bulk_sync_inode` of src/inode_alternate_sync.c.
use test_fs.Prelude.{
  ℕ, ◌+◌, ◌*◌, ◌/◌, ◌%◌, ◌≤◌, ◌≡◌, ◌≢◌, refl, sym, ◌∙◌, ap, subst, ◌⊎◌, inl, inr, false, Option,
  some, none, List, arith, length, lt→ltb, eq→==, ne→==, ◌==◌, if◌then◌else◌,
}
use native.Mathlib.Decide.{ℕ_discrete, dec_lt}
use test_fs.Bytes.{Byte, blit}
use test_fs.Bytes.Laws.{length-blit}
use test_fs.Platform.{Platform}
use test_fs.World.{World, DInode, done}
use test_fs.Block.{read_blocks, write_blocks}
use test_fs.Block.Laws.{block_at, length-block_at}
use test_fs.Inode.Table.{
  encode_dinode, decode_dinode, hash_replace, update_chain, store_inode, inode_to_block_nr,
  inode_to_block_offset,
}
use test_fs.Inode.Table.Dinode.{IsDinode, decode-encode_dinode, length-encode_dinode}
use test_fs.Inode.Table.Sync.{load_inode-run}
use test_fs.Alternate.Bulk.{direct, switch_block, copy_into, copy_dinode}
use test_fs.Alternate.Bulk.Held.{IsHeld, IsHeld-same, IsHeld-clean}
use test_fs.Alternate.Bulk.Blocks.{decode-blit_other}

module _ ⦃p : Platform⦄ (dins : ℕ → DInode) where
  -- The block of an inode.
  abbrev pub block_of : World p.Dev → ℕ → ℕ
  block_of w n = w.fs.sb.inode_blocks_start + n / 16

  -- Block `b` as it will be when the block that is built is written.
  unfoldable pub view : World p.Dev → Option ℕ → List Byte → ℕ → List Byte
  view w none block b = block_at w b
  view w (some cur) block b = if b == cur then block else block_at w b

  -- The dinode is in its place in the block.
  abbrev pub IsStored : List Byte → ℕ → Type 0
  IsStored block n = decode_dinode block (n % 16 * 32) ≡ dins n

  -- The block of the next inode is the one that is built.
  record Switched (w : World p.Dev) (cur : Option ℕ) (block : List Byte) (b : ℕ) (v : World p.Dev)
      (block' : List Byte) : Type 0 where
    pub content : (c : ℕ) → view v (some b) block' c ≡ view w cur block c
    pub total : length block' ≡ 512
    pub fs : v.fs ≡ w.fs
    pub table : v.inode_hash_table ≡ w.inode_hash_table

  switch_block-Switched :
      (w : World p.Dev) (cur : Option ℕ) (block : List Byte) (b : ℕ)
      → length block ≡ 512
      → (v : World p.Dev) × (block' : List Byte) × (switch_block direct cur block b w
          ≡ done block' v)
        × Switched w cur block b v block'
  unfolding switch_block view read_blocks write_blocks
  switch_block-Switched w none block b size = (
    w,
    block_at w b,
    refl,
    record {
      content = λ c. elim (ℕ_discrete c b) [
        | yes e ↦ rw (eq→== c b e) (ap (block_at w) (sym e))
        | no ne ↦ rw (ne→== c b ne)
      ];
      total = length-block_at w b;
      fs = refl;
      table = refl;
    },
  )
  switch_block-Switched w (some cur) block b size = elim (ℕ_discrete b cur) [
    | yes same ↦ (
      w,
      block,
      rw (eq→== b cur same),
      record { content = λ c. rw same refl; total = size; fs = refl; table = refl },
    )
    | no ne ↦ (
      record w { dev = p.write w.dev cur 1 block },
      block_at (record w { dev = p.write w.dev cur 1 block }) b,
      rw (ne→== b cur ne) refl,
      record {
        content = λ c. elim (ℕ_discrete c cur) [
          | yes e ↦
              rw (eq→== c cur e, ne→== c b (λ z. ne (sym z ∙ e)))
                (ap (λ k. p.read (p.write w.dev cur 1 block) k 1) e
                  ∙ p.read-write_self w.dev cur block size)
          | no o ↦ elim (ℕ_discrete c b) [
            | yes e ↦
                rw (ne→== c cur o, eq→== c b e)
                  (ap (λ k. p.read (p.write w.dev cur 1 block) k 1) (sym e)
                    ∙ p.read-write_other w.dev cur c block (λ z. o (sym z)))
            | no d ↦
                rw (ne→== c cur o, ne→== c b d)
                  (p.read-write_other w.dev cur c block (λ z. o (sym z)))
          ]
        ];
        total = length-block_at (record w { dev = p.write w.dev cur 1 block }) b;
        fs = refl;
        table = refl;
      },
    )
  ]

  -- One round of the loop: the dinode of inode `n` is in its place, and all else is as before.
  pub record Copied (w : World p.Dev) (cur : Option ℕ) (block : List Byte) (n : ℕ) (v : World p.Dev)
      (block' : List Byte) : Type 0 where
    pub here : IsStored (view v (some (block_of w n)) block' (block_of w n)) n
    pub kept :
        (m : ℕ)
        → IsStored (view w cur block (block_of w m)) m
        → IsStored (view v (some (block_of w n)) block' (block_of w m)) m
    pub others :
        (c : ℕ) → c ≢ block_of w n → view v (some (block_of w n)) block' c ≡ view w cur block c
    pub total : length block' ≡ 512
    pub fs : v.fs ≡ w.fs
    pub held : (m : ℕ) → IsHeld dins w m → IsHeld dins v m

  copy_into-run :
      (w : World p.Dev) (n : ℕ) (block : List Byte) (h : IsHeld dins w n)
      → copy_into direct n block w
        ≡ done
            (blit block (n % 16 * 32) (encode_dinode (dins n)))
            (hash_replace (record (h.inode) { dirty = false }) w)
  unfolding copy_into store_inode inode_to_block_offset
  copy_into-run w n block h =
      rw (lt→ltb (n % 16 * 32) 512 (omega arith), load_inode-run w n h.found, h.din) refl

  view_here : (w : World p.Dev) (b : ℕ) (block : List Byte) → view w (some b) block b ≡ block
  unfolding view
  view_here w b block = rw (eq→== b b refl)

  view_other :
      (v w : World p.Dev) (b c : ℕ) (block block' : List Byte)
      → c ≢ b
      → v.dev ≡ w.dev
      → view v (some b) block' c ≡ view w (some b) block c
  unfolding view
  view_other v w b c block block' ne e = rw (ne→== c b ne, e)

  -- Another dinode in the block that is built stays.
  beside :
      (n m : ℕ) (block : List Byte)
      → length block ≡ 512
      → IsDinode (dins n)
      → n / 16 ≡ m / 16
      → IsStored block m
      → IsStored (blit block (n % 16 * 32) (encode_dinode (dins n))) m
  beside n m block size d same s = elim (ℕ_discrete n m) [
    | yes e ↦
        subst (λ k. IsStored (blit block (n % 16 * 32) (encode_dinode (dins n))) k) e
          (decode-encode_dinode (dins n) block (n % 16 * 32) d (omega (arith, size)))
    | no ne ↦
        decode-blit_other block (n % 16 * 32) (encode_dinode (dins n)) (m % 16 * 32)
          (omega (arith, size, length-encode_dinode (dins n) d)) (apart ne)
        ∙ s
  ]
    where
      apart :
          n ≢ m
          → (m % 16 * 32 + 32 ≤ n % 16 * 32)
            ⊎ (n % 16 * 32 + length (encode_dinode (dins n)) ≤ m % 16 * 32)
      apart ne = elim (dec_lt (m % 16) (n % 16)) [
        | yes l ↦ inl (omega arith)
        | no g ↦ inr (omega (arith, length-encode_dinode (dins n) d, differ ne))
      ]
        where
          differ : n ≢ m → n % 16 ≢ m % 16
          differ ne e = ne (omega (arith, same, e))

  pub copy_dinode-Copied :
      (w : World p.Dev) (cur : Option ℕ) (block : List Byte) (n : ℕ)
      → length block ≡ 512
      → IsHeld dins w n
      → (v : World p.Dev) × (block' : List Byte) × (copy_dinode direct n cur block w
          ≡ done (block_of w n, block') v)
        × Copied w cur block n v block'
  unfolding copy_dinode inode_to_block_nr
  copy_dinode-Copied w cur block n size h =
      let (u, mid, run, s) = switch_block-Switched w cur block (block_of w n) size in
      let g : IsHeld dins u n = IsHeld-same dins s.table n h in
      let v : World p.Dev = hash_replace (record (g.inode) { dirty = false }) u in
      let next : List Byte = blit mid (n % 16 * 32) (encode_dinode (dins n)) in
      let fits : n % 16 * 32 + length (encode_dinode (dins n)) ≤ length mid =
        omega (arith, s.total, length-encode_dinode (dins n) h.valid) in
      let same_dev : v.dev ≡ u.dev = unfold hash_replace update_chain in refl in
      let same_fs : v.fs ≡ u.fs = unfold hash_replace update_chain in refl in
      let elsewhere : (c : ℕ)
          → c ≢ block_of w n
          → view v (some (block_of w n)) next c ≡ view w cur block c =
        λ c ne. view_other v u (block_of w n) c mid next ne same_dev ∙ s.content c in
      (
        v,
        next,
        rw (lt→ltb (n / 16) 128 (omega (arith, h.low)), run, copy_into-run u n mid g) refl,
        record {
          here =
              ap (λ b. decode_dinode b (n % 16 * 32)) (view_here v (block_of w n) next)
              ∙ decode-encode_dinode (dins n) mid (n % 16 * 32) h.valid (omega (arith, s.total));
          kept = λ m st. elim (ℕ_discrete (block_of w m) (block_of w n)) [
            | yes e ↦
                ap (λ b. decode_dinode b (m % 16 * 32))
                  (ap (view v (some (block_of w n)) next) e ∙ view_here v (block_of w n) next)
                ∙ beside n m mid s.total h.valid (omega (arith, e)) (
                    ap (λ b. decode_dinode b (m % 16 * 32))
                      (sym (view_here u (block_of w n) mid)
                        ∙ s.content (block_of w n)
                        ∙ ap (view w cur block) (sym e))
                    ∙ st)
            | no ne ↦ ap (λ b. decode_dinode b (m % 16 * 32)) (elsewhere (block_of w m) ne) ∙ st
          ];
          others = elsewhere;
          total = length-blit mid (n % 16 * 32) (encode_dinode (dins n)) fits ∙ s.total;
          fs = same_fs ∙ s.fs;
          held = λ m k. IsHeld-clean dins u n g m (IsHeld-same dins s.table m k);
        },
      )
