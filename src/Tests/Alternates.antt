-- ===== src/Tests/Alternates.antt =====
-- The theorems on the alternate path, at a new file on a device in memory.
use test_fs.Prelude.{ℕ, ◌≡◌, ◌≢◌, ◌≤◌, refl, [], ◌∷◌, arith}
use test_fs.Bytes.{CInt, zero_bytes}
use test_fs.Bytes.Laws.{length-zero_bytes}
use test_fs.Platform.Ram.{Ram, ram}
use test_fs.World.{World, Inode, done}
use test_fs.Block.Laws.{block_at}
use test_fs.Alternate.{file_write_block, file_read_block}
use test_fs.Alternate.Numbers.{number_of-none}
use test_fs.Alternate.Stored.{file_read_block-file_write_block}
use test_fs.Inode.{efbig}
use test_fs.Alternate.{write_data_alternate}
use test_fs.Alternate.Flight.{Flight, write_data_alternate_async}
use test_fs.Alternate.Limit.{write_data_alternate-efbig}
use test_fs.Tests.Bits.{fresh-count}
use test_fs.Tests.Witnesses.{world, empty_file, empty_file-IsMapped}

file_read_block-file_write_block_example :
    (n : CInt) × (j : Inode) × (v : World Ram) × (file_write_block ⦃p = ram⦄ empty_file 100
        (zero_bytes 512)
        world
      ≡ done (0, j) v)
    × (file_read_block ⦃p = ram⦄ j 100 v ≡ done (zero_bytes 512, j) v)
    × (192 ≤ n)
    × ((b : ℕ) → b ≢ n → block_at ⦃p = ram⦄ v b ≡ block_at ⦃p = ram⦄ world b)
file_read_block-file_write_block_example =
    file_read_block-file_write_block ⦃p = ram⦄ empty_file world 100 (zero_bytes 512)
      empty_file-IsMapped.ready (omega (arith, fresh-count)) refl (length-zero_bytes 512)
      (omega arith)
      (λ ne. absurd (ne (number_of-none ⦃p = ram⦄ empty_file world 100 (omega arith) refl)))
      (length-zero_bytes 512)

abbrev idle : Flight Ram
idle = record { world = world; pending = [] }

write_data_alternate-efbig_example :
    (write_data_alternate ⦃p = ram⦄ empty_file 67584 (7 ∷ []) world
      ≡ done (efbig, empty_file) world)
    × (write_data_alternate_async ⦃p = ram⦄ empty_file 67584 (7 ∷ []) idle
        ≡ done (efbig, empty_file) idle)
write_data_alternate-efbig_example =
    write_data_alternate-efbig ⦃p = ram⦄ empty_file 67584 (7 ∷ []) world idle refl (omega arith)
      (omega arith)
