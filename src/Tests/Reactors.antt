-- ===== src/Tests/Reactors.antt =====
-- The theorems on requests and waiting at a write and a read of one block.
use test_fs.Prelude.{ℕ, ◌≡◌, ◌≢◌, [], arith}
use test_fs.Bytes.{zero_bytes}
use test_fs.Bytes.Laws.{length-zero_bytes}
use test_fs.Platform.Ram.{Ram, ram}
use test_fs.World.{done}
use test_fs.Block.{read_blocks, write_blocks}
use test_fs.Async.{
  System, SpinWait, num_reactors, data_reactor, read_blocks_async, write_blocks_async,
}
use test_fs.Async.Wait.{IsBalanced, send_request-IsBalanced, spin_wait-drained, spin_wait-returns}
use test_fs.Async.Sync.{quiet, quiet-IsBalanced, write_blocks-SpinWait, read_blocks-SpinWait}
use test_fs.Tests.Witnesses.{world}

abbrev writing : System Ram
writing =
    write_blocks_async ⦃p = ram⦄ data_reactor (zero_bytes 512) 3 1 (quiet ⦃p = ram⦄ world (λ _. []))

abbrev reading : System Ram
reading = read_blocks_async ⦃p = ram⦄ data_reactor 7 3 1 (quiet ⦃p = ram⦄ world (λ _. []))

writing-IsBalanced : IsBalanced ⦃p = ram⦄ writing
unfolding write_blocks_async
writing-IsBalanced =
    send_request-IsBalanced ⦃p = ram⦄ _ (quiet ⦃p = ram⦄ world (λ _. []))
      (quiet-IsBalanced ⦃p = ram⦄ world (λ _. [])) (omega arith)

reading-IsBalanced : IsBalanced ⦃p = ram⦄ reading
unfolding read_blocks_async
reading-IsBalanced =
    send_request-IsBalanced ⦃p = ram⦄ _ (quiet ⦃p = ram⦄ world (λ _. []))
      (quiet-IsBalanced ⦃p = ram⦄ world (λ _. [])) (omega arith)

spin_wait-returns_example :
    (u : System Ram) × SpinWait ⦃p = ram⦄ num_reactors 0 writing u × (u.pending ≡ [])
spin_wait-returns_example = spin_wait-returns ⦃p = ram⦄ writing-IsBalanced

abbrev written : (u : System Ram) × SpinWait ⦃p = ram⦄ num_reactors 0 writing u × (u.pending ≡ [])
written = spin_wait-returns ⦃p = ram⦄ writing-IsBalanced

abbrev read : (u : System Ram) × SpinWait ⦃p = ram⦄ num_reactors 0 reading u × (u.pending ≡ [])
read = spin_wait-returns ⦃p = ram⦄ reading-IsBalanced

spin_wait-drained_example : written.0.pending ≡ []
spin_wait-drained_example = spin_wait-drained ⦃p = ram⦄ writing-IsBalanced written.1

write_blocks-SpinWait_example :
    (write_blocks ⦃p = ram⦄ (zero_bytes 512) 3 1 world
      ≡ done tt (record world { dev = written.0.dev }))
    × (written.0.buffers ≡ (λ _. []))
write_blocks-SpinWait_example =
    write_blocks-SpinWait ⦃p = ram⦄ world (λ _. []) (zero_bytes 512) 3 1 (length-zero_bytes 512)
      written.1

read_blocks-SpinWait_example :
    (read_blocks ⦃p = ram⦄ 3 1 world ≡ done (read.0.buffers 7) world)
    × ((other : ℕ) → other ≢ 7 → read.0.buffers other ≡ [])
    × (read.0.dev ≡ world.dev)
read_blocks-SpinWait_example = read_blocks-SpinWait ⦃p = ram⦄ world (λ _. []) 7 3 1 read.1
