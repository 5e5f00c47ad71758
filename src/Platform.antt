-- ===== src/Platform.antt =====
-- What testFS uses and does not implement: the SPDK block device behind src/block.c, the hash
-- function of the borrowed Linux header include/list.h, and the content of an uninitialised buffer
-- on the stack. The laws of the device are those of a disk with blocks of 512 bytes: a transfer of
-- several blocks is the transfer of each in turn, and a block keeps what was last written to it.
pub mod Ram
use test_fs.Prelude.{ℕ, zero, suc, ◌+◌, ◌*◌, ◌^◌, ◌<◌, ◌≡◌, ◌≢◌, List, ◌++◌, length, take, drop}
use test_fs.Bytes.{Byte}

-- BLOCK_SIZE
abbrev pub block_size : ℕ
block_size = 512

pub record Platform : Type 1 where
  pub Dev : Type 0
  -- the `nr` blocks from block `start` on
  pub read : Dev → (start nr : ℕ) → List Byte
  pub write : Dev → (start nr : ℕ) → List Byte → Dev
  pub length-read : (d : Dev) (start : ℕ) → length (read d start 1) ≡ 512
  pub read-zero : (d : Dev) (start : ℕ) → read d start 0 ≡ List.[]
  pub read-suc :
      (d : Dev) (start nr : ℕ) → read d start (suc nr) ≡ read d start 1 ++ read d (start + 1) nr
  pub write-zero : (d : Dev) (start : ℕ) (b : List Byte) → write d start 0 b ≡ d
  pub write-suc :
      (d : Dev) (start nr : ℕ) (b : List Byte)
      → write d start (suc nr) b ≡ write (write d start 1 (take 512 b)) (start + 1) nr (drop 512 b)
  pub read-write_self :
      (d : Dev) (start : ℕ) (b : List Byte) → length b ≡ 512 → read (write d start 1 b) start 1 ≡ b
  pub read-write_other :
      (d : Dev) (start other : ℕ) (b : List Byte)
      → start ≢ other
      → read (write d start 1 b) other 1 ≡ read d other 1
  pub hash_int : (value bits : ℕ) → ℕ
  pub hash_int-lt : (value bits : ℕ) → hash_int value bits < 2 ^ bits
  pub stack : List Byte
  pub length-stack : length stack ≡ 512
