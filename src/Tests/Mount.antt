-- ===== src/Tests/Mount.antt =====
-- The theorem on unmounting and mounting, at a new file system with an empty and a full freemap.
use test_fs.Prelude.{◌≡◌, refl, true, some, arith}
use test_fs.Bitmap.{Bitmap}
use test_fs.Bitmap.Create.{create-IsFresh}
use test_fs.Platform.Ram.{Ram, ram}
use test_fs.World.{World, done}
use test_fs.Super.{flush_super_block, init_super_block, all_empty}
use test_fs.Super.Mount.{IsLayout, Mounted, init_super_block-flush_super_block}
use test_fs.Tests.Bits.{full, full-IsValid}
use test_fs.Tests.Witnesses.{world}

abbrev inodes : Bitmap
inodes = (create-IsFresh true true 4096 (omega arith)).0

abbrev mounted_world : World Ram
mounted_world = record world {
  fs = record world.fs { inode_freemap = some inodes; block_freemap = some full };
}

mounted_world-IsLayout : IsLayout mounted_world.fs.sb
mounted_world-IsLayout = record {
  after_super_block = omega arith;
  after_inode_freemap = omega arith;
  after_block_freemap = omega arith;
  after_csums = omega arith;
  after_inodes = omega arith;
  small = omega arith;
  time = omega arith;
}

mounted_world-empty : all_empty ⦃p = ram⦄ mounted_world 256 ≡ true
unfolding all_empty
mounted_world-empty = refl

init_super_block-flush_super_block_example :
    (v : World Ram) × (u : World Ram) × (flush_super_block ⦃p = ram⦄ mounted_world ≡ done tt v)
    × (init_super_block ⦃p = ram⦄ v ≡ done 0 u)
    × Mounted ⦃p = ram⦄ mounted_world u
init_super_block-flush_super_block_example =
    init_super_block-flush_super_block ⦃p = ram⦄ mounted_world mounted_world-IsLayout
      (create-IsFresh true true 4096 (omega arith)).2.valid
      (create-IsFresh true true 4096 (omega arith)).2.size full-IsValid refl refl
      mounted_world-empty refl refl
