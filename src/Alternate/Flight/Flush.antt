-- ===== src/Alternate/Flight/Flush.antt =====
-- `testfs_flush_csum_async` and `testfs_flush_csum` of src/csum.c.
use test_fs.Prelude.{
  ℕ, zero, suc, ◌+◌, ◌-◌, ◌*◌, ◌≤◌, ◌<◌, ◌≡◌, refl, sym, ◌∙◌, ap, Bool, true, false, List, [], ◌∷◌,
  ◌++◌, arith, length, get_or, set,
}
use test_fs.Bytes.{Byte, slice}
use test_fs.Bytes.Laws.{length-slice}
use test_fs.Platform.{Platform}
use test_fs.World.{World, SuperBlock, done}
use test_fs.Block.{write_blocks}
use test_fs.Block.Laws.{block_at}
use test_fs.Csum.{flush_block, flush_from, flush_csum}
use test_fs.Alternate.Flight.{
  Write, Flight, send_write, complete_all, wait, flush_block_async, flush_from_async,
  flush_csum_async,
}
use test_fs.Alternate.Flight.Order.{
  Each, TakesAll, IsWriteOf, complete_all-order, complete_all-append, complete_all-fs,
  complete_all-keeps,
}

module _ ⦃p : Platform⦄ where
  -- The world once the device has taken the pending writes as they were sent.
  abbrev settled : Flight p.Dev → World p.Dev
  settled f = complete_all f.pending f.world

  -- Block `b` of the table of checksums in memory.
  abbrev table_block : SuperBlock → ℕ → List Byte
  table_block s b = slice s.csum_table ((b - s.sb.csum_table_start) * 512) 512

  -- What the two loops do to each other: the writes are those of the table of `s`.
  record Matches (s : SuperBlock) (f : Flight p.Dev) : Type 0 where
    pub table : f.world.fs.csum_table ≡ s.csum_table
    pub layout : f.world.fs.sb ≡ s.sb
    pub writes : Each (IsWriteOf (table_block s)) f.pending

  Each-append :
      (P : Write → Type 0) (xs : List Write) (x : Write) → Each P xs → P x → Each P (xs ++ x ∷ [])
  Each-append P [] x hs h = (h, tt)
  Each-append P (y ∷ xs) x (g, hs) h = (g, Each-append P xs x hs h)

  -- What the state of the super block is once block `k` of the table is clean.
  abbrev cleaned : SuperBlock → ℕ → SuperBlock
  cleaned s k = record s { csum_block_dirty = set s.csum_block_dirty k false }

  abbrev write_of : SuperBlock → ℕ → Write
  write_of s k = record {
    blocks = slice s.csum_table (k * 512) 512;
    start = s.sb.csum_table_start + k;
    nr = 1;
  }

  flush_block-dirty :
      (k : ℕ) (w : World p.Dev) {s : SuperBlock}
      → w.fs ≡ s
      → get_or s.csum_block_dirty k false ≡ true
      → flush_block k w
        ≡ done tt (record w {
          dev = p.write w.dev (s.sb.csum_table_start + k) 1 (slice s.csum_table (k * 512) 512);
          fs = cleaned s k;
        })
  unfolding flush_block write_blocks
  flush_block-dirty k w {s} e d = rw (ap (λ t. get_or t.csum_block_dirty k false) e ∙ d) (
      ap
        (λ t. done tt (record w {
          dev = p.write w.dev (t.sb.csum_table_start + k) 1 (slice t.csum_table (k * 512) 512);
          fs = cleaned t k;
        }))
        e)

  flush_block-clean :
      (k : ℕ) (w : World p.Dev) {s : SuperBlock}
      → w.fs ≡ s
      → get_or s.csum_block_dirty k false ≡ false
      → flush_block k w ≡ done tt w
  unfolding flush_block
  flush_block-clean k w e d = rw (ap (λ t. get_or t.csum_block_dirty k false) e ∙ d) refl

  settled-sent :
      (xs : List Write) (x : Write) (s : SuperBlock) (w : World p.Dev)
      → record (complete_all xs w) {
        dev = p.write ((complete_all xs w).dev) x.start x.nr x.blocks;
        fs = s;
      }
        ≡ complete_all (xs ++ x ∷ []) (record w { fs = s })
  settled-sent xs x s w = sym (
      complete_all-append xs x (record w { fs = s })
      ∙ ap (λ (u : World p.Dev). record u { dev = p.write u.dev x.start x.nr x.blocks })
          (complete_all-fs xs s w))

  -- One round of both loops.
  flush_block-both :
      (s : SuperBlock) (k : ℕ) (f : Flight p.Dev)
      → length s.csum_table ≡ 30720
      → k < 60
      → Matches s f
      → (g : Flight p.Dev) × (flush_block_async k f ≡ done tt g)
        × (flush_block k (settled f) ≡ done tt (settled g))
        × Matches s g
  unfolding flush_block_async send_write
  flush_block-both s k f size low m = both (get_or f.world.fs.csum_block_dirty k false) refl
    where
      same : (settled f).fs ≡ f.world.fs
      same = (complete_all-keeps f.pending f.world).0

      sent : IsWriteOf (table_block s) (write_of f.world.fs k)
      sent = record {
        one = refl;
        total = omega (arith, length-slice f.world.fs.csum_table (k * 512) 512, ap length m.table);
        agrees =
            ap (λ t. slice t (k * 512) 512) m.table
            ∙ ap (λ n. slice s.csum_table (n * 512) 512) (back s.sb.csum_table_start k)
            ∙ ap
                (λ t.
                  slice s.csum_table ((t.csum_table_start + k - s.sb.csum_table_start) * 512) 512)
                (sym m.layout);
      }
        where
          back : (a b : ℕ) → b ≡ a + b - a
          back a b = omega arith

      both :
          (d : Bool)
          → get_or f.world.fs.csum_block_dirty k false ≡ d
          → (g : Flight p.Dev) × (flush_block_async k f ≡ done tt g)
            × (flush_block k (settled f) ≡ done tt (settled g))
            × Matches s g
      both true d = (
        record {
          world = record (f.world) { fs = cleaned f.world.fs k };
          pending = f.pending ++ write_of f.world.fs k ∷ [];
        },
        rw d refl,
        flush_block-dirty k (settled f) same d
            ∙ ap (done tt)
                (settled-sent f.pending (write_of f.world.fs k) (cleaned f.world.fs k) f.world),
        record {
          table = m.table;
          layout = m.layout;
          writes =
              Each-append (IsWriteOf (table_block s)) f.pending (write_of f.world.fs k) m.writes
                sent;
        },
      )
      both false d = (f, rw d refl, flush_block-clean k (settled f) same d, m)

  flush_from-both :
      (s : SuperBlock) (rounds k : ℕ) (f : Flight p.Dev)
      → length s.csum_table ≡ 30720
      → k + rounds ≤ 60
      → Matches s f
      → (g : Flight p.Dev) × (flush_from_async rounds k f ≡ done tt g)
        × (flush_from rounds k (settled f) ≡ done tt (settled g))
        × Matches s g
  unfolding flush_from_async flush_from
  flush_from-both s zero k f size low m = (f, refl, refl, m)
  flush_from-both s (suc rounds) k f size low m =
      let (g, run, run', n) = flush_block-both s k f size (omega arith) m in
      let (h, rest, rest', o) = flush_from-both s rounds (k + 1) g size (omega arith) n in
      (h, rw run rest, rw run' rest', o)

  -- When the table of checksums is whole and nothing is pending, `testfs_flush_csum_async` with the
  -- wait leaves the blocks and the state that `testfs_flush_csum` leaves, in whatever order the
  -- device takes the writes, as long as it takes each of them and no other.
  pub flush_csum_async-flush_csum :
      (order : List Write → List Write) (w : World p.Dev)
      → TakesAll order
      → length w.fs.csum_table ≡ 30720
      → (f : Flight p.Dev) × (v : World p.Dev) × (flush_csum_async
            (record { world = w; pending = [] })
          ≡ done tt f)
        × (flush_csum w ≡ done tt v)
        × ((b : ℕ) → block_at (wait order f) b ≡ block_at v b)
        × ((wait order f).fs ≡ v.fs)
        × ((wait order f).inode_hash_table ≡ v.inode_hash_table)
  unfolding flush_csum_async flush_csum wait complete_all
  flush_csum_async-flush_csum order w takes size =
      let (f, run, run', m) =
        flush_from-both w.fs 60 0 (record { world = w; pending = [] }) size (omega arith)
          (record { table = refl; layout = refl; writes = tt }) in
      let ordered = complete_all-keeps (order f.pending) f.world in
      let straight = complete_all-keeps f.pending f.world in
      (
        f,
        settled f,
        run,
        run',
        complete_all-order (table_block w.fs) order f.pending f.world takes m.writes,
        ordered.0 ∙ sym straight.0,
        ordered.1 ∙ sym straight.1,
      )
