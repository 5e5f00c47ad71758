-- ===== src/Bench/Raw.antt =====
-- src/bench_raw.c: reading and writing the blocks of the device one after the other, with a wait
-- for each block or with one wait for all. A block that is written is a buffer
-- that is never filled: what it holds is a parameter.
use test_fs.Prelude.{ℕ, zero, suc, ◌+◌, ◌-◌, List, [], ◌∷◌, ◌++◌, ◌%◌, ◌^◌, if◌then◌else◌}
use test_fs.Bytes.{Byte, CInt, le_int}
use test_fs.Platform.{Platform}
use test_fs.World.{done, Cmd, ◌>>=◌, ◌>>◌, pure, non_null}
use test_fs.Block.{read_blocks, write_blocks}
use test_fs.Async.{System, data_reactor, read_blocks_async, write_blocks_async}
use test_fs.Async.Sync.{quiet}
use test_fs.Async.Schedule.{spin_wait}
use test_fs.Bench.{Surroundings, Calls, BenchDigest, rounds_of, populate_digest, run_trials}

-- The line of an experiment in its file: what was varied, and the digest.
pub record Line (D : Type 0) : Type 0 where
  pub varied : CInt
  pub digest : BenchDigest D

-- The rounds of `for (int i = first; i <= last; i++)`.
unfoldable pub rounds_to : (first last : CInt) → ℕ
rounds_to first last = if le_int first last then (last + 2 ^ 32 - first) % 2 ^ 32 + 1 else 0

module _ ⦃p : Platform⦄ where
  -- The loop of `benchmark_raw_write`.
  unfoldable pub write_from : (block : List Byte) → (rounds i : ℕ) → Cmd (Unit {0})
  write_from block zero i = pure tt
  write_from block (suc rounds) i = write_blocks block i 1 >> write_from block rounds (i + 1)

  -- benchmark_raw_write
  unfoldable pub benchmark_raw_write : (block : List Byte) → (num_blocks : CInt) → Cmd (Unit {0})
  benchmark_raw_write block num_blocks = write_from block (rounds_of num_blocks) 0

  -- The loop of `benchmark_raw_write_async`.
  unfoldable pub write_from_async :
      (block : List Byte) → (rounds i : ℕ) → System p.Dev → System p.Dev
  write_from_async block zero i s = s
  write_from_async block (suc rounds) i s =
      write_from_async block rounds (i + 1) (write_blocks_async data_reactor block i 1 s)

  -- A new future, what is sent on it, and the wait: the buffers of the caller.
  unfoldable pub with_requests :
      (schedule : ℕ → ℕ) → (System p.Dev → System p.Dev) → Cmd (ℕ → List Byte)
  with_requests schedule send w =
      let u = spin_wait schedule (send (quiet w (λ _. []))) in
      done u.buffers (record w { dev = u.dev })

  -- benchmark_raw_write_async
  unfoldable pub benchmark_raw_write_async :
      (block : List Byte) → (schedule : ℕ → ℕ) → (num_blocks : CInt) → Cmd (Unit {0})
  benchmark_raw_write_async block schedule num_blocks = do
    buffers ← with_requests schedule (write_from_async block (rounds_of num_blocks) 0)
    pure tt

  -- The loop of `benchmark_raw_read`: what it puts into the buffer.
  unfoldable pub read_from : (rounds i : ℕ) → Cmd (List Byte)
  read_from zero i = pure []
  read_from (suc rounds) i =
      let rest = read_from rounds (i + 1) in do b ← read_blocks i 1; after ← rest; pure (b ++ after)

  -- benchmark_raw_read
  unfoldable pub benchmark_raw_read : (num_blocks : CInt) → Cmd (List Byte)
  benchmark_raw_read num_blocks = read_from (rounds_of num_blocks) 0

  -- The loop of `benchmark_raw_read_async`: block `i` of the buffer is destination `i`.
  unfoldable pub read_from_async : (rounds i : ℕ) → System p.Dev → System p.Dev
  read_from_async zero i s = s
  read_from_async (suc rounds) i s =
      read_from_async rounds (i + 1) (read_blocks_async data_reactor i i 1 s)

  -- The buffer, from block `i` on.
  unfoldable pub gather : (rounds i : ℕ) → (ℕ → List Byte) → List Byte
  gather zero i buffers = []
  gather (suc rounds) i buffers = buffers i ++ gather rounds (i + 1) buffers

  -- benchmark_raw_read_async
  unfoldable pub benchmark_raw_read_async :
      (schedule : ℕ → ℕ) → (num_blocks : CInt) → Cmd (List Byte)
  benchmark_raw_read_async schedule num_blocks = do
    buffers ← with_requests schedule (read_from_async (rounds_of num_blocks) 0)
    pure (gather (rounds_of num_blocks) 0 buffers)

  module _ (s : Surroundings) where
    -- The end of a benchmark: the digest of the results.
    unfoldable pub digest_of :
        {C : Type 0}
        → (num_trials : CInt) → Cmd (List ℕ × List ℕ × C × Calls)
        → Cmd (BenchDigest s.Double × C × Calls)
    digest_of num_trials trials = do
      (results_sync_us, results_async_us, c, n) ← trials
      digest ← non_null (populate_digest s results_sync_us results_async_us num_trials)
      pure (digest, c, n)

    -- benchmark_raw_seq_read; what is read is dropped. What is handed from trial to trial, here and
    -- in the write benchmark, only counts the calls.
    unfoldable pub benchmark_raw_seq_read :
        (num_trials num_blocks : CInt) → Calls → Cmd (BenchDigest s.Double × Calls)
    benchmark_raw_seq_read num_trials num_blocks n = do
      (digest, c, n') ← digest_of num_trials (
          run_trials s {C = ℕ} (λ c. pure (c + 1))
            (λ c. do b ← benchmark_raw_read num_blocks; pure tt)
            (λ c. do b ← benchmark_raw_read_async s.schedule num_blocks; pure tt)
            (rounds_of num_trials) n.readings n)
      pure (digest, n')

    -- benchmark_raw_seq_write; each call finds its own buffer on the stack.
    unfoldable pub benchmark_raw_seq_write :
        (num_trials num_blocks : CInt) → Calls → Cmd (BenchDigest s.Double × Calls)
    benchmark_raw_seq_write num_trials num_blocks n = do
      (digest, c, n') ← digest_of num_trials (
          run_trials s {C = ℕ} (λ c. pure (c + 1)) (λ c. benchmark_raw_write (s.stack c) num_blocks)
            (λ c. benchmark_raw_write_async (s.stack c) s.schedule num_blocks)
            (rounds_of num_trials) n.readings n)
      pure (digest, n')

    -- The loop of an experiment over a number of blocks: the lines behind the header.
    unfoldable pub vary_from :
        (CInt → Calls → Cmd (BenchDigest s.Double × Calls))
        → (rounds varied : ℕ) → Calls
        → Cmd (List (Line s.Double) × Calls)
    vary_from bench zero varied n = pure ([], n)
    vary_from bench (suc rounds) varied n =
        let rest = vary_from bench rounds (varied + 1) in
        do
          (digest, n1) ← bench varied n
          (lines, n2) ← rest n1
          pure (record { varied = varied; digest = digest } ∷ lines, n2)

    -- experiment_raw_seq_write
    unfoldable pub experiment_raw_seq_write :
        (num_blocks_start num_blocks_end num_trials : CInt)
        → Calls
        → Cmd (List (Line s.Double) × Calls)
    experiment_raw_seq_write num_blocks_start num_blocks_end num_trials =
        vary_from (benchmark_raw_seq_write num_trials) (rounds_to num_blocks_start num_blocks_end)
          num_blocks_start

    -- experiment_raw_seq_read
    unfoldable pub experiment_raw_seq_read :
        (num_blocks_start num_blocks_end num_trials : CInt)
        → Calls
        → Cmd (List (Line s.Double) × Calls)
    experiment_raw_seq_read num_blocks_start num_blocks_end num_trials =
        vary_from (benchmark_raw_seq_read num_trials) (rounds_to num_blocks_start num_blocks_end)
          num_blocks_start
