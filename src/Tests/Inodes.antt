-- ===== src/Tests/Inodes.antt =====
-- The theorem on syncing an inode, at a new file that is the only inode in memory.
use test_fs.Prelude.{ℕ, ◌<◌, ◌≡◌, ◌^◌, refl, some, none, [], ◌∷◌, arith, get_or, zero, suc}
use test_fs.Platform.Ram.{Ram, ram}
use test_fs.World.{World, Inode, done}
use test_fs.Inode.Table
use test_fs.Inode.Table.{hash_find, sync_inode, put_inode, get_inode}
use test_fs.Inode.Table.Dinode.{IsDinode}
use test_fs.Inode.Table.Sync.{get_inode-sync_inode}
use test_fs.Tests.Witnesses.{world, empty_file}

abbrev pub open_world : World Ram
open_world = record world { inode_hash_table = λ _. empty_file ∷ [] }

empty_blocks : (k : ℕ) → get_or empty_file.din.i_block_nr k 0 < 2 ^ 32
empty_blocks zero = omega arith
empty_blocks (suc zero) = omega arith
empty_blocks (suc (suc zero)) = omega arith
empty_blocks (suc (suc (suc zero))) = omega arith
empty_blocks (suc (suc (suc (suc k)))) = omega arith

pub empty_file-IsDinode : IsDinode empty_file.din
empty_file-IsDinode = record {
  type = omega arith;
  size = omega arith;
  time = omega arith;
  direct = refl;
  blocks = empty_blocks;
  indirect = omega arith;
}

pub open_world-find : hash_find ⦃p = ram⦄ 1 open_world ≡ some empty_file
unfolding hash_find Table.find_in
open_world-find = refl

open_world-once :
    Table.find_in 1 (Table.remove_from 1 (open_world.inode_hash_table (Table.hash_fn ⦃p = ram⦄ 1)))
    ≡ none
unfolding Table.find_in Table.remove_from
open_world-once = refl

get_inode-sync_inode_example :
    (v : World Ram) × (u : World Ram) × (z : World Ram) × (j : Inode) × (sync_inode ⦃p = ram⦄ 1
        open_world
      ≡ done tt v)
    × (put_inode ⦃p = ram⦄ 1 v ≡ done tt u)
    × (hash_find ⦃p = ram⦄ 1 u ≡ none)
    × (get_inode ⦃p = ram⦄ 1 u ≡ done 1 z)
    × (hash_find ⦃p = ram⦄ 1 z ≡ some j)
    × (j.din ≡ empty_file.din)
get_inode-sync_inode_example =
    get_inode-sync_inode ⦃p = ram⦄ open_world empty_file open_world-find open_world-once
      empty_file-IsDinode refl refl refl (omega arith)
