-- ===== src/Tests/Witnesses.antt =====
-- The theorems on blocks and files at concrete inputs: a new file on a device in memory.
use native.Mathlib.Decide.{dec_lt}
use test_fs.Prelude.{
  ℕ, ◌≡◌, refl, ◌∙◌, List, [], ◌∷◌, some, true, false, arith, length, get_or-replicate, ◌==◌,
  if◌then◌else◌,
}
use test_fs.Bytes.{Byte, CInt, zero_bytes}
use test_fs.Bytes.Laws.{length-zero_bytes}
use test_fs.Bitmap.{Bitmap}
use test_fs.Bitmap.Valid.{IsValid}
use test_fs.Platform.Ram.{Ram, ram}
use test_fs.World.{World, Inode, DSuperBlock, tx_none, done}
use test_fs.Block.Laws.{block_at}
use test_fs.Csum.{einval, put_csum, verify_csum}
use test_fs.Csum.Table.{csum_of, ints_of, xor_all, Summed, put_csum-Summed, verify_csum_lem}
use test_fs.Freemap.{alloc_block}
use test_fs.Freemap.Blocks.{IsReady, Taken, alloc_block-Taken}
use test_fs.Inode.{get_block, allocate_block}
use test_fs.Inode.File.{write_data, read_data}
use test_fs.Inode.Map.{phys, phys-direct, phys-none, IsMapped}
use test_fs.Inode.Map.Get.{Got, get_block-Got}
use test_fs.Inode.Map.Allocate.{Placed, allocate_block-Placed}
use test_fs.Inode.Data.Write.{Written, write_data-Written}
use test_fs.Inode.Data.Read.{Holds, read_data-Holds, read_data-write_data}
use test_fs.Tests.Bits.{fresh, fresh-IsFresh, fresh-count}

-- The layout that `testfs_make_super_block` gives.
abbrev layout : DSuperBlock
layout = record {
  inode_freemap_start = 1;
  block_freemap_start = 2;
  csum_table_start = 4;
  inode_blocks_start = 64;
  data_blocks_start = 192;
  modification_time = 0;
}

abbrev pub world_of : Bitmap → World Ram
world_of free = record {
  dev = λ _ _. 0;
  fs = record {
    sb = layout;
    inode_freemap = some free;
    block_freemap = some free;
    tx_in_progress = tx_none;
    csum_table = zero_bytes 30720;
    csum_block_dirty = [];
  };
  inode_hash_table = λ _. [];
}

pub world_of-IsReady :
    (free : Bitmap) → IsValid free → free.nbits ≡ 8192 → IsReady (world_of free).fs free
world_of-IsReady free valid size = record {
  freemap_before_data = omega arith;
  csums_before_data = omega arith;
  small = omega arith;
  csums = length-zero_bytes 30720;
  here = refl;
  valid = valid;
  size = size;
}

abbrev pub world : World Ram
world = world_of fresh

world-IsReady : IsReady world.fs fresh
world-IsReady = world_of-IsReady fresh fresh-IsFresh.valid fresh-IsFresh.size

-- A new file.
abbrev pub empty_file : Inode
empty_file = record {
  dirty = true;
  indirect_dirty = false;
  indirect_loaded = false;
  din = record {
    i_type = 1;
    i_size = 0;
    i_mod_time = 0;
    i_block_nr = 0 ∷ 0 ∷ 0 ∷ 0 ∷ [];
    i_indirect = 0;
  };
  i_nr = 1;
  i_count = 1;
  indirect = zero_bytes 512;
}

phys-empty : (l : ℕ) → phys ⦃p = ram⦄ empty_file world l ≡ 0
phys-empty l = elim (dec_lt l 4) [
  | yes d ↦ phys-direct empty_file world l d ∙ get_or-replicate 4 l 0 0 d
  | no far ↦ phys-none empty_file world l (omega arith) refl
]

pub empty_file-IsMapped : IsMapped ⦃p = ram⦄ empty_file world fresh
empty_file-IsMapped = record {
  ready = world-IsReady;
  direct = refl;
  laid = record {
    blocks = λ l _ ne. absurd (ne (phys-empty l));
    at_indirect = λ ne. absurd (ne refl);
    apart = λ l m _ _ ne _. absurd (ne (phys-empty l));
    beside = λ l _ ne. absurd (ne (phys-empty l));
  };
}

abbrev two_bytes : List Byte
two_bytes = 7 ∷ 8 ∷ []

read_data-write_data_example :
    (j : Inode) × (v : World Ram) × (write_data ⦃p = ram⦄ empty_file 0 two_bytes world
      ≡ done (0, j) v)
    × (read_data ⦃p = ram⦄ j 0 2 v ≡ done (0, two_bytes) v)
read_data-write_data_example =
    read_data-write_data ⦃p = ram⦄ 0 two_bytes empty_file-IsMapped (omega arith) (omega arith)
      (omega arith) (omega arith) (omega (arith, fresh-count))

abbrev written :
    (j : Inode) × (v : World Ram) × (write_data ⦃p = ram⦄ empty_file 0 two_bytes world
      ≡ done (0, j) v)
    × Written ⦃p = ram⦄ empty_file world fresh 0 two_bytes 0 j v
written =
    write_data-Written ⦃p = ram⦄ 0 two_bytes empty_file-IsMapped (omega arith) (omega arith)
      (omega arith) (omega arith) (omega (arith, fresh-count))

write_data-Written_example :
    (j : Inode) × (v : World Ram) × (write_data ⦃p = ram⦄ empty_file 0 two_bytes world
      ≡ done (0, j) v)
    × Written ⦃p = ram⦄ empty_file world fresh 0 two_bytes 0 j v
write_data-Written_example =
    write_data-Written ⦃p = ram⦄ 0 two_bytes empty_file-IsMapped (omega arith) (omega arith)
      (omega arith) (omega arith) (omega (arith, fresh-count))

written-size : written.0.din.i_size ≡ 2
written-size = written.3.size

read_data-Holds_example :
    (r : List Byte) × (read_data ⦃p = ram⦄ written.0 0 2 written.1 ≡ done (0, r) written.1)
    × (length r ≡ 2)
    × Holds ⦃p = ram⦄ written.0 written.1 0 r
read_data-Holds_example =
    read_data-Holds ⦃p = ram⦄ written.3.mapped 0 2 (omega arith)
      (λ q lo hi. (written.3.inside q (omega arith) (omega arith)).0) (omega arith)
      (omega (arith, written-size)) (omega (arith, written-size))

get_block-Got_example :
    (out : CInt × List Byte) × (get_block ⦃p = ram⦄ empty_file [] 100 world ≡ done out world)
    × Got ⦃p = ram⦄ world (phys ⦃p = ram⦄ empty_file world 100) out
get_block-Got_example = get_block-Got ⦃p = ram⦄ empty_file-IsMapped [] 100 (omega arith)

allocate_block-Placed_example :
    (out : CInt × List Byte × Inode) × (v : World Ram) × (allocate_block ⦃p = ram⦄ empty_file [] 100
        world
      ≡ done out v)
    × Placed ⦃p = ram⦄ empty_file world fresh 100 out v
allocate_block-Placed_example =
    allocate_block-Placed ⦃p = ram⦄ empty_file-IsMapped [] 100 (omega arith)
      (omega (arith, fresh-count))

alloc_block-Taken_example :
    (out : CInt × List Byte) × (v : World Ram) × (alloc_block ⦃p = ram⦄ [] world ≡ done out v)
    × Taken ⦃p = ram⦄ world fresh out v
alloc_block-Taken_example =
    alloc_block-Taken ⦃p = ram⦄ world world-IsReady [] (omega (arith, fresh-count))

put_csum-Summed_example :
    (v : World Ram) × (put_csum ⦃p = ram⦄ 200 9 world ≡ done tt v)
    × Summed ⦃p = ram⦄ world fresh 200 9 v
put_csum-Summed_example =
    put_csum-Summed ⦃p = ram⦄ world 200 9 world-IsReady (omega arith) (omega arith)

verify_csum_example :
    verify_csum ⦃p = ram⦄ 200 world
    ≡ done
        (if xor_all 0 (ints_of (block_at ⦃p = ram⦄ world 200)) == csum_of ⦃p = ram⦄ world 200
          then 0
          else einval)
        world
verify_csum_example = verify_csum_lem ⦃p = ram⦄ world 200 world-IsReady (omega arith) (omega arith)
