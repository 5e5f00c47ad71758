-- ===== src/Alternate/Limit.antt =====
-- The limit of a file on the alternate path: `testfs_write_data_alternate` of
-- src/inode_alternate_sync.c and its asynchronous form.
use test_fs.Prelude.{ℕ, ◌+◌, ◌-◌, ◌/◌, ◌%◌, ◌<◌, ◌≡◌, refl, List, arith, length, eq→==, ne→==}
use native.Mathlib.Decide.{ℕ_discrete}
use test_fs.Bytes.{Byte}
use test_fs.Platform.{Platform}
use test_fs.World.{World, Inode, done}
use test_fs.Inode.{efbig}
use test_fs.Inode.Data.Bytes.{max_size}
use test_fs.Inode.Data.Write.{le→leb}
use test_fs.Alternate.{
  ReadBlock, WriteBlock, write_plan, file_read_block, file_write_block, write_data_alternate,
}
use test_fs.Alternate.Flight.{
  Flight, file_read_block_async, file_write_block_async, write_data_alternate_async,
}

module _ {W : Type 0} where
  write_plan-efbig :
      (read : ReadBlock W) (write : WriteBlock W) (stack : List Byte) (i : Inode) (start : ℕ)
      (buf : List Byte) (w : W)
      → start % 512 ≡ 0
      → 0 < length buf
      → 67584 < start + length buf
      → write_plan read write stack i start buf w ≡ done (efbig, i) w
  unfolding write_plan
  write_plan-efbig read write stack i start buf w aligned some_left far =
      elim (ℕ_discrete ((length buf - 0) % 512) 0) [
        | yes z ↦
            rw
              (
                aligned,
                ne→== (length buf) 0 (omega arith),
                eq→== ((length buf - 0) % 512) 0 z,
                z,
                le→leb 0 (length buf) (omega arith),
                le→leb (start / 512) (start / 512 + (length buf - 0 - 0) / 512 + 0 - 1)
                    (omega arith),
                le→leb 4 (start / 512 + (length buf - 0 - 0) / 512 + 0 - 1) (omega arith),
                le→leb 128 (start / 512 + (length buf - 0 - 0) / 512 + 0 - 1 - 4) (omega arith),
              )
              refl
        | no ne ↦
            rw
              (
                aligned,
                ne→== (length buf) 0 (omega arith),
                ne→== ((length buf - 0) % 512) 0 ne,
                le→leb 0 (length buf) (omega arith),
                le→leb (start / 512)
                    (start / 512 + (length buf - 0 - (length buf - 0) % 512) / 512 + 1 - 1)
                    (omega arith),
                le→leb 4 (start / 512 + (length buf - 0 - (length buf - 0) % 512) / 512 + 1 - 1)
                    (omega arith),
                le→leb 128
                    (start / 512 + (length buf - 0 - (length buf - 0) % 512) / 512 + 1 - 1 - 4)
                    (omega arith),
              )
              refl
      ]

module _ ⦃p : Platform⦄ where
  -- A write on the alternate path, in either form, of a buffer that is not empty, from the start of
  -- a block to an end beyond the largest size of a file, returns EFBIG before it does anything: the
  -- world, the pending writes and the inode are as before.
  pub write_data_alternate-efbig :
      (i : Inode) (start : ℕ) (buf : List Byte) (w : World p.Dev) (f : Flight p.Dev)
      → start % 512 ≡ 0
      → 0 < length buf
      → max_size < start + length buf
      → (write_data_alternate i start buf w ≡ done (efbig, i) w)
        × (write_data_alternate_async i start buf f ≡ done (efbig, i) f)
  unfolding write_data_alternate write_data_alternate_async
  write_data_alternate-efbig i start buf w f aligned some_left far = (
    write_plan-efbig file_read_block file_write_block p.stack i start buf w aligned some_left far,
    write_plan-efbig file_read_block_async file_write_block_async p.stack i start buf f aligned
        some_left far,
  )
