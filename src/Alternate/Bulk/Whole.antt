-- ===== src/Alternate/Bulk/Whole.antt =====
-- What `testfs_bulk_sync_inode` of src/inode_alternate_sync.c stores: every listed inode, whatever
-- the order that `qsort` gives them.
use test_fs.Prelude.{
  ℕ, ◌+◌, ◌*◌, ◌/◌, ◌%◌, ◌≡◌, ◌≢◌, refl, sym, ◌∙◌, ap, subst, Option, some, none, List, [], ◌∷◌,
  length, eq→==, ne→==,
}
use native.Mathlib.Decide.{ℕ_discrete}
use test_fs.Bytes.{Byte, CInt}
use test_fs.Platform.{Platform}
use test_fs.World.{World, DInode, done}
use test_fs.Block.{write_blocks}
use test_fs.Block.Laws.{block_at}
use test_fs.Inode.Table.{decode_dinode}
use test_fs.Inode.Table.Sync.{load_inode-run}
use test_fs.Alternate.Bulk.{
  inode_compare, direct, flush_indirect, flush_indirects, write_current, copy_dinodes, sync_all,
  bulk_sync_inode,
}
use test_fs.Alternate.Bulk.Held.{All, All-map, IsHeld, IsHeld-same}
use test_fs.Alternate.Bulk.Stored.{block_of, IsStored, view, copy_dinode-Copied}

module _ ⦃p : Platform⦄ (dins : ℕ → DInode) where
  -- Each inode of the list is in its place on the device, the other blocks are as before.
  pub record Synced (w : World p.Dev) (ns : List ℕ) (v : World p.Dev) : Type 0 where
    pub stored : All (λ n. IsStored dins (block_at v (block_of dins w n)) n) ns
    pub others : (c : ℕ) → All (λ n. c ≢ block_of dins w n) ns → block_at v c ≡ block_at w c
    pub fs : v.fs ≡ w.fs
    pub held : (m : ℕ) → IsHeld dins w m → IsHeld dins v m

  -- The same from the middle of the loop on, with what was stored before.
  record Rest (w : World p.Dev) (cur : Option ℕ) (block : List Byte) (ns : List ℕ) (v : World p.Dev)
      : Type 0 where
    pub stored : All (λ n. IsStored dins (block_at v (block_of dins w n)) n) ns
    pub kept :
        (m : ℕ)
        → IsStored dins (view dins w cur block (block_of dins w m)) m
        → IsStored dins (block_at v (block_of dins w m)) m
    pub others :
        (c : ℕ) → All (λ n. c ≢ block_of dins w n) ns → block_at v c ≡ view dins w cur block c
    pub fs : v.fs ≡ w.fs
    pub held : (m : ℕ) → IsHeld dins w m → IsHeld dins v m

  write_current-Rest :
      (w : World p.Dev) (cur : Option ℕ) (block : List Byte)
      → length block ≡ 512
      → (v : World p.Dev) × (write_current direct cur block w ≡ done tt v) × Rest w cur block [] v
  unfolding write_current write_blocks view
  write_current-Rest w none block size = (
    w,
    refl,
    record { stored = tt; kept = λ m s. s; others = λ c _. refl; fs = refl; held = λ m h. h },
  )
  write_current-Rest w (some cur) block size =
      let v : World p.Dev = record w { dev = p.write w.dev cur 1 block } in
      let content : (c : ℕ) → block_at v c ≡ view dins w (some cur) block c = λ c.
        elim (ℕ_discrete c cur) [
          | yes e ↦ rw (eq→== c cur e) (
              ap (λ k. p.read (p.write w.dev cur 1 block) k 1) e
              ∙ p.read-write_self w.dev cur block size)
          | no o ↦ rw (ne→== c cur o) (p.read-write_other w.dev cur c block (λ z. o (sym z)))
        ] in
      (
        v,
        refl,
        record {
          stored = tt;
          kept = λ m s. ap (λ b. decode_dinode b (m % 16 * 32)) (content (block_of dins w m)) ∙ s;
          others = λ c _. content c;
          fs = refl;
          held = λ m h. IsHeld-same dins refl m h;
        },
      )

  copy_dinodes-Rest :
      (ns : List ℕ) (w : World p.Dev) (cur : Option ℕ) (block : List Byte)
      → length block ≡ 512
      → All (IsHeld dins w) ns
      → (v : World p.Dev) × (copy_dinodes direct ns cur block w ≡ done tt v) × Rest w cur block ns v
  unfolding copy_dinodes
  copy_dinodes-Rest [] w cur block size hs = write_current-Rest w cur block size
  copy_dinodes-Rest (n ∷ ns) w cur block size (h, hs) =
      let (u, next, run, s) = copy_dinode-Copied dins w cur block n size h in
      let b : ℕ = block_of dins w n in
      let (v, rest, r) = copy_dinodes-Rest ns u (some b) next s.total (All-map s.held ns hs) in
      let at : (m : ℕ) → block_of dins u m ≡ block_of dins w m =
        λ m. ap (λ f. f.sb.inode_blocks_start + m / 16) s.fs in
      let kept : (m : ℕ)
          → IsStored dins (view dins u (some b) next (block_of dins w m)) m
          → IsStored dins (block_at v (block_of dins w m)) m =
        λ m st.
          subst (λ k. IsStored dins (block_at v k) m) (at m)
            (r.kept m
              (subst (λ k. IsStored dins (view dins u (some b) next k) m) (sym (at m)) st)) in
      (
        v,
        rw run rest,
        record {
          stored = (
            kept n s.here,
            All-map (λ m st. subst (λ k. IsStored dins (block_at v k) m) (at m) st) ns r.stored,
          );
          kept = λ m st. kept m (s.kept m st);
          others = λ c (apart, beyond).
              r.others c (All-map (λ m ne e. ne (e ∙ at m)) ns beyond) ∙ s.others c apart;
          fs = r.fs ∙ s.fs;
          held = λ m k. r.held m (s.held m k);
        },
      )

  flush_indirects-clean :
      (ns : List ℕ) (w : World p.Dev)
      → All (IsHeld dins w) ns
      → flush_indirects direct ns w ≡ done tt w
  unfolding flush_indirects flush_indirect
  flush_indirects-clean [] w hs = refl
  flush_indirects-clean (n ∷ ns) w (h, hs) =
      rw (load_inode-run w n h.found, h.clean) (flush_indirects-clean ns w hs)

  -- `testfs_bulk_sync_inode` of inodes that are in memory with clean indirect blocks stores the
  -- dinode of each of them in its place of its inode block, in whatever order `qsort` puts them and
  -- however many share a block; it leaves every other block and the super block as they are, and
  -- each inode that was in memory like that stays so. It is used of `qsort` that the elements of
  -- the result are those of the array.
  pub bulk_sync_inode-Synced :
      (qsort : (ℕ → ℕ → CInt) → List ℕ → List ℕ)
      → ((compare : ℕ → ℕ → CInt) (ns : List ℕ) (P : ℕ → Type 0)
          → (All P ns → All P (qsort compare ns)) × (All P (qsort compare ns) → All P ns))
      → (ns : List ℕ) (w : World p.Dev) → All (IsHeld dins w) ns
      → (v : World p.Dev) × (bulk_sync_inode qsort ns w ≡ done tt v) × Synced w ns v
  unfolding bulk_sync_inode sync_all
  bulk_sync_inode-Synced qsort same [] w hs =
      (w, refl, record { stored = tt; others = λ c _. refl; fs = refl; held = λ m h. h })
  bulk_sync_inode-Synced qsort same (n ∷ ns) w hs =
      let sorted : List ℕ = qsort inode_compare (n ∷ ns) in
      let (v, run, r) =
        copy_dinodes-Rest sorted w none p.stack p.length-stack
          ((same inode_compare (n ∷ ns) (IsHeld dins w)).0 hs) in
      (
        v,
        rw (flush_indirects-clean (n ∷ ns) w hs) run,
        record {
          stored =
              (same inode_compare (n ∷ ns)
                  (λ m. IsStored dins (block_at v (block_of dins w m)) m)).1
                r.stored;
          others = λ c apart.
              r.others c ((same inode_compare (n ∷ ns) (λ m. c ≢ block_of dins w m)).0 apart)
              ∙ view_none c;
          fs = r.fs;
          held = r.held;
        },
      )
    where
      view_none : (c : ℕ) → view dins w none p.stack c ≡ block_at w c
      view_none c = unfold view in refl
