-- ===== src/Tests/Bulk.antt =====
-- The theorem on syncing many inodes, at three inodes of which two share a block.
use test_fs.Prelude.{ℕ, ◌<◌, ◌≡◌, refl, List, [], ◌∷◌, some, arith}
use test_fs.Bytes.{CInt}
use test_fs.Platform.Ram.{Ram, ram}
use test_fs.World.{World, DInode, Inode, done}
use test_fs.Inode.Table
use test_fs.Inode.Table.{hash_find}
use test_fs.Alternate.Bulk.{bulk_sync_inode}
use test_fs.Alternate.Bulk.Held.{IsHeld}
use test_fs.Alternate.Bulk.Whole.{Synced, bulk_sync_inode-Synced}
use test_fs.Tests.Witnesses.{world, empty_file}
use test_fs.Tests.Inodes.{empty_file-IsDinode}

abbrev inode_of : ℕ → Inode
inode_of n = record empty_file { i_nr = n }

abbrev three_world : World Ram
three_world = record world { inode_hash_table = λ _. inode_of 17 ∷ inode_of 1 ∷ inode_of 18 ∷ [] }

abbrev same_dins : ℕ → DInode
same_dins n = empty_file.din

three_find :
    (hash_find ⦃p = ram⦄ 1 three_world ≡ some (inode_of 1))
    × (hash_find ⦃p = ram⦄ 17 three_world ≡ some (inode_of 17))
    × (hash_find ⦃p = ram⦄ 18 three_world ≡ some (inode_of 18))
unfolding hash_find Table.find_in
three_find = (refl, refl, refl)

three_world-IsHeld :
    (n : ℕ)
    → n < 2048
    → hash_find ⦃p = ram⦄ n three_world ≡ some (inode_of n)
    → IsHeld ⦃p = ram⦄ same_dins three_world n
three_world-IsHeld n low found = record {
  inode = inode_of n;
  found = found;
  number = refl;
  din = refl;
  clean = refl;
  valid = empty_file-IsDinode;
  low = low;
}

-- An order that is as good as any for the theorem.
abbrev as_is : (ℕ → ℕ → CInt) → List ℕ → List ℕ
as_is compare ns = ns

bulk_sync_inode-Synced_example :
    (v : World Ram) × (bulk_sync_inode ⦃p = ram⦄ as_is (17 ∷ 1 ∷ 18 ∷ []) three_world ≡ done tt v)
    × Synced ⦃p = ram⦄ same_dins three_world (17 ∷ 1 ∷ 18 ∷ []) v
bulk_sync_inode-Synced_example =
    bulk_sync_inode-Synced ⦃p = ram⦄ same_dins as_is (λ _ _ _. (λ h. h, λ h. h)) (17 ∷ 1 ∷ 18 ∷ [])
      three_world
      (
        three_world-IsHeld 17 (omega arith) three_find.1,
        (
          three_world-IsHeld 1 (omega arith) three_find.0,
          (three_world-IsHeld 18 (omega arith) three_find.2, tt),
        ),
      )
