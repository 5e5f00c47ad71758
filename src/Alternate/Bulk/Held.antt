-- ===== src/Alternate/Bulk/Held.antt =====
-- The inodes that `testfs_bulk_sync_inode` is given, in memory.
use test_fs.Prelude.{ℕ, ◌<◌, ◌≡◌, sym, ◌∙◌, subst, false, some, List, [], ◌∷◌}
use native.Mathlib.Decide.{ℕ_discrete}
use test_fs.Platform.{Platform}
use test_fs.World.{World, DInode, Inode}
use test_fs.Inode.Table.{find_in, hash_fn, hash_find, hash_replace, replace_in, update_chain}
use test_fs.Inode.Table.Dinode.{IsDinode, find_in-replace_in}
use test_fs.Inode.Table.Sync.{hash_find-update_chain}
use test_fs.Alternate.Bulk.Blocks.{hash_find-replace_other}

-- A property of each number of a list.
abbrev pub All : (ℕ → Type 0) → List ℕ → Type 0
All P [] = Unit {0}
All P (n ∷ ns) = P n × All P ns

pub All-map : {P Q : ℕ → Type 0} → ((n : ℕ) → P n → Q n) → (ns : List ℕ) → All P ns → All Q ns
All-map f [] h = tt
All-map f (n ∷ ns) (h, hs) = (f n h, All-map f ns hs)

module _ ⦃p : Platform⦄ (dins : ℕ → DInode) where
  -- The inode `n` is in memory with the dinode `dins n`, and its indirect block is clean.
  pub record IsHeld (w : World p.Dev) (n : ℕ) : Type 0 where
    pub inode : Inode
    pub found : hash_find n w ≡ some inode
    pub number : inode.i_nr ≡ n
    pub din : inode.din ≡ dins n
    pub clean : inode.indirect_dirty ≡ false
    pub valid : IsDinode (dins n)
    pub low : n < 2048

  pub IsHeld-same :
      {w v : World p.Dev}
      → v.inode_hash_table ≡ w.inode_hash_table
      → (m : ℕ) → IsHeld w m
      → IsHeld v m
  IsHeld-same {w} {v} e m h = record {
    inode = h.inode;
    found = same ∙ h.found;
    number = h.number;
    din = h.din;
    clean = h.clean;
    valid = h.valid;
    low = h.low;
  }
    where
      same : hash_find m v ≡ hash_find m w
      same = unfold hash_find in rw e

  -- Clearing the dirty flag of one inode.
  pub IsHeld-clean :
      (w : World p.Dev) (n : ℕ) (h : IsHeld w n) (m : ℕ)
      → IsHeld w m
      → IsHeld (hash_replace (record (h.inode) { dirty = false }) w) m
  unfolding hash_find find_in hash_replace update_chain
  IsHeld-clean w n h m g = elim (ℕ_discrete m n) [
    | yes e ↦ subst (IsHeld (hash_replace (record (h.inode) { dirty = false }) w)) (sym e) (record {
      inode = record (h.inode) { dirty = false };
      found = self;
      number = h.number;
      din = h.din;
      clean = h.clean;
      valid = h.valid;
      low = h.low;
    })
    | no ne ↦ record {
      inode = g.inode;
      found =
          hash_find-replace_other m (record (h.inode) { dirty = false }) w (λ e. ne (e ∙ h.number))
          ∙ g.found;
      number = g.number;
      din = g.din;
      clean = g.clean;
      valid = g.valid;
      low = g.low;
    }
  ]
    where
      self :
          hash_find n (hash_replace (record (h.inode) { dirty = false }) w)
          ≡ some (record (h.inode) { dirty = false })
      self =
          subst
            (λ k.
              hash_find n (update_chain k (replace_in (record (h.inode) { dirty = false })) w)
              ≡ some (record (h.inode) { dirty = false }))
            (sym h.number)
            (hash_find-update_chain n (replace_in (record (h.inode) { dirty = false })) w
              ∙ find_in-replace_in (w.inode_hash_table (hash_fn n)) n
                  (record (h.inode) { dirty = false }) h.number h.found)
