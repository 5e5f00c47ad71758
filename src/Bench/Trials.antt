-- ===== src/Bench/Trials.antt =====
-- The benchmarks of src/bench_raw.c over their trials: that they end, and what they leave.
use test_fs.Prelude.{
  ℕ, zero, suc, ◌+◌, ◌*◌, ◌≤◌, ◌<◌, ◌≡◌, refl, ap, ◌∙◌, arith, List, [], ◌∷◌, length,
}
use test_fs.Bytes.{CInt}
use test_fs.Platform.{Platform}
use test_fs.World.{World, Cmd, ◌>>=◌, pure, done, aborted}
use test_fs.Bench.{
  LongLong, Surroundings, Calls, BenchDigest, rounds_of, populate_digest, elapsed, measure_usec,
  run_trials,
}
use test_fs.Bench.Raw.{
  benchmark_raw_write, benchmark_raw_write_async, digest_of, benchmark_raw_seq_read,
  benchmark_raw_seq_write,
}
use test_fs.Bench.Filling.{IsFilled}
use test_fs.Bench.Overwrite.{benchmark_raw_write-run, benchmark_raw_write_async-run}
use test_fs.Bench.Range.{populate_digest-IsRangeOf}

module _ ⦃p : Platform⦄ where
  -- A command that ends, and changes the device alone, in a way that `S` allows.
  abbrev Does : (p.Dev → p.Dev → Type 0) → Cmd (Unit {0}) → Type 0
  Does S m = (w : World p.Dev) → (d : p.Dev) × (m w ≡ done tt (record w { dev = d })) × S w.dev d

  measure_usec-run :
      (s : Surroundings) (m : Cmd (Unit {0})) (n : Calls) (w v : World p.Dev)
      → m w ≡ done tt v
      → (us : LongLong) × (measure_usec s m n w
          ≡ done (us, record n { readings = n.readings + 2 }) v)
  unfolding measure_usec
  measure_usec-run s m n w v run =
      (elapsed (s.gettimeofday n.readings) (s.gettimeofday (n.readings + 1)), rw run refl)

  -- The n-th call does what `S n` allows, and `I n` holds of the device that it leaves.
  module _ (s : Surroundings) (S : ℕ → p.Dev → p.Dev → Type 0) (I : ℕ → p.Dev → Type 0)
      (keeps : (c : ℕ) (a b : p.Dev) → I c a → S (c + 1) a b → I (c + 1) b)
      (sync async : ℕ → Cmd (Unit {0})) (does : (c : ℕ) → Does (S c) (sync c))
      (does' : (c : ℕ) → Does (S c) (async c)) where
    -- Each trial makes two calls and takes four readings of the clock.
    run_trials-run :
        (rounds c : ℕ) (n : Calls) (w : World p.Dev)
        → I c w.dev
        → (xs ys : List LongLong) × (c' : ℕ) × (n' : Calls) × (d : p.Dev) × (run_trials s {C = ℕ}
              (λ c. pure (c + 1))
              sync
              async
              rounds
              c
              n
              w
            ≡ done (xs, ys, c', n') (record w { dev = d }))
          × (length xs ≡ rounds)
          × (length ys ≡ rounds)
          × (c' ≡ c + 2 * rounds)
          × (n'.readings ≡ n.readings + 4 * rounds)
          × I c' d
    unfolding run_trials
    run_trials-run zero c n w inv =
        ([], [], c, n, w.dev, refl, refl, refl, omega arith, omega arith, inv)
    run_trials-run (suc rounds) c n w inv =
        let (d1, run1, step1) = does (c + 1) w in
        let w1 : World p.Dev = record w { dev = d1 } in
        let (us1, took1) = measure_usec-run s (sync (c + 1)) n w w1 run1 in
        let (d2, run2, step2) = does' (c + 1 + 1) w1 in
        let w2 : World p.Dev = record w { dev = d2 } in
        let n1 : Calls = record n { readings = n.readings + 2 } in
        let (us2, took2) = measure_usec-run s (async (c + 1 + 1)) n1 w1 w2 run2 in
        let n2 : Calls = record n { readings = n.readings + 2 + 2 } in
        let (xs, ys, c', n', d, rest, many, many', calls, readings, last) =
          run_trials-run rounds (c + 1 + 1) n2 w2
            (keeps (c + 1) d1 d2 (keeps c w.dev d1 inv step1) step2) in
        (
          us1 ∷ xs,
          us2 ∷ ys,
          c',
          n',
          d,
          rw (took1, took2, rest) refl,
          ap suc many,
          ap suc many',
          omega (arith, calls),
          omega (arith, readings),
          last,
        )

    -- With at least one trial there is a digest.
    digest_of-run :
        (num_trials : CInt) (c : ℕ) (n : Calls) (w : World p.Dev)
        → 0 < rounds_of num_trials
        → I c w.dev
        → (digest : BenchDigest s.Double) × (c' : ℕ) × (n' : Calls) × (d : p.Dev) × (digest_of s
              num_trials
              (run_trials s {C = ℕ} (λ c. pure (c + 1)) sync async (rounds_of num_trials) c n)
              w
            ≡ done (digest, c', n') (record w { dev = d }))
          × (digest.trials ≡ num_trials)
          × (c' ≡ c + 2 * rounds_of num_trials)
          × (n'.readings ≡ n.readings + 4 * rounds_of num_trials)
          × I c' d
    unfolding digest_of
    digest_of-run num_trials c n w some_trials inv =
        let (xs, ys, c', n', d, run, many, many', calls, readings, last) =
          run_trials-run (rounds_of num_trials) c n w inv in
        let (digest, made, trials, _, _) =
          populate_digest-IsRangeOf s xs ys num_trials some_trials (omega (arith, many))
            (omega (arith, many')) in
        (digest, c', n', d, rw (run, made) refl, trials, calls, readings, last)

  -- What the write benchmark leaves after its calls up to the c-th, when the one before the first
  -- has number `first`.
  record Overwritten (s : Surroundings) (n first : ℕ) (before : p.Dev) (c : ℕ) (after : p.Dev)
      : Type 0 where
    pub inside : first < c → (b : ℕ) → b < n → p.read after b 1 ≡ s.stack c
    pub outside : (b : ℕ) → n ≤ b → p.read after b 1 ≡ p.read before b 1
    pub from : first ≤ c

  -- With one trial or more, the write benchmark ends with a digest for that number of trials after
  -- four readings of the clock for each. It changes nothing but the device, where the first
  -- `num_blocks` blocks, the super block and the freemaps among them, hold what the stack held in
  -- the buffer of the last call, the second of the last trial, and the others what they held before.
  pub benchmark_raw_seq_write-IsFilled :
      (s : Surroundings) (num_trials num_blocks : CInt) (n : Calls) (w : World p.Dev)
      → 0 < rounds_of num_trials
      → (digest : BenchDigest s.Double) × (n' : Calls) × (d : p.Dev) × (benchmark_raw_seq_write s
            num_trials num_blocks n w
          ≡ done (digest, n') (record w { dev = d }))
        × (digest.trials ≡ num_trials)
        × (n'.readings ≡ n.readings + 4 * rounds_of num_trials)
        × IsFilled (s.stack (n.readings + 2 * rounds_of num_trials)) (rounds_of num_blocks) w.dev d
  unfolding benchmark_raw_seq_write
  benchmark_raw_seq_write-IsFilled s num_trials num_blocks n w some_trials =
      let k : ℕ = rounds_of num_blocks in
      let (digest, c', n', d, run, trials, calls, readings, left) =
        digest_of-run s (λ c. IsFilled (s.stack c) k) (Overwritten s k n.readings w.dev)
          (λ c a b inv filled. record {
            inside = λ later. filled.inside;
            outside = λ i high. filled.outside i high ∙ inv.outside i high;
            from = omega (arith, inv.from);
          })
          (λ c. benchmark_raw_write (s.stack c) num_blocks)
          (λ c. benchmark_raw_write_async (s.stack c) s.schedule num_blocks)
          (λ c v. benchmark_raw_write-run (s.stack c) num_blocks v (s.length-stack c))
          (λ c v.
            benchmark_raw_write_async-run (s.stack c) s.schedule num_blocks v (s.length-stack c))
          num_trials n.readings n w some_trials
          (record {
            inside = λ later. absurd (omega arith);
            outside = λ i high. refl;
            from = omega arith;
          }) in
      (
        digest,
        n',
        d,
        rw run refl,
        trials,
        readings,
        record {
          inside = λ b low. left.inside (omega (arith, calls)) b low ∙ ap s.stack calls;
          outside = left.outside;
        },
      )

  -- With no trials or a negative number of them, `populate_digest` reads `results[0]` out of
  -- bounds, in the read and in the write benchmark.
  pub benchmark_raw_seq-no_trials :
      (s : Surroundings) (num_trials num_blocks : CInt) (n : Calls) (w : World p.Dev)
      → rounds_of num_trials ≡ 0
      → (benchmark_raw_seq_read s num_trials num_blocks n w ≡ aborted)
        × (benchmark_raw_seq_write s num_trials num_blocks n w ≡ aborted)
  unfolding benchmark_raw_seq_read benchmark_raw_seq_write digest_of run_trials populate_digest
  benchmark_raw_seq-no_trials s num_trials num_blocks n w e = (rw e refl, rw e refl)
