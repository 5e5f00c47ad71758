-- ===== src/Block.antt =====
-- src/block.c as its callers see it: each synchronous transfer waits for its request, so it is one
-- step on the device. Buffers are values. The completion flag of SPDK is ignored, as in the code.
pub mod Laws
use test_fs.Prelude.{ℕ, zero, suc, ◌+◌, ◌*◌, List}
use test_fs.Bytes.{Byte, zero_bytes}
use test_fs.Platform.{Platform, block_size}
use test_fs.World.{World, Run, done, Cmd, ◌>>◌, pure}

module _ ⦃p : Platform⦄ where
  -- read_blocks: the bytes that the buffer receives.
  unfoldable pub read_blocks : (start nr : ℕ) → Cmd (List Byte)
  read_blocks start nr w = done (p.read w.dev start nr) w

  -- write_blocks
  unfoldable pub write_blocks : List Byte → (start nr : ℕ) → Cmd (Unit {0})
  write_blocks blocks start nr w = done tt (record w { dev = p.write w.dev start nr blocks })

  -- The loop of `zero_blocks`, with `nr` rounds left from block `start` on.
  unfoldable pub zero_blocks : (start nr : ℕ) → Cmd (Unit {0})
  unfolding write_blocks
  zero_blocks start zero = pure tt
  zero_blocks start (suc nr) =
      write_blocks (zero_bytes block_size) start 1 >> zero_blocks (start + 1) nr
