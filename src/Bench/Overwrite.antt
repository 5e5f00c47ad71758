-- ===== src/Bench/Overwrite.antt =====
-- The writes of src/bench_raw.c: what the synchronous and the asynchronous loop leave on the device.
use native.Mathlib.Decide.{ℕ_discrete}
use test_fs.Prelude.{
  ℕ, zero, suc, ◌+◌, ◌<◌, ◌≡◌, refl, sym, ap, subst, inl, inr, arith, [], take, take-all, ◌*◌, List,
  length,
}
use test_fs.Bytes.{Byte, CInt}
use test_fs.Platform.{Platform}
use test_fs.World.{World, done}
use test_fs.Async.{
  Request, System, w_request, num_reactors, data_reactor, send_request, write_blocks_async,
  SpinWait,
}
use test_fs.Async.Wait.{IsBalanced, send_request-IsBalanced, spin_wait-drained, SpinWait-Reach}
use test_fs.Async.Pending.{Each, Some, Each-append_one, Some-append_one}
use test_fs.Async.Sync.{quiet, quiet-IsBalanced}
use test_fs.Async.Schedule.{spin_wait, spin_wait-SpinWait}
use test_fs.Bench.{rounds_of}
use test_fs.Bench.Raw.{
  benchmark_raw_write, write_from_async, with_requests, benchmark_raw_write_async,
}
use test_fs.Bench.Filling.{IsFilled, write_from-run, Fills, IsFilling, Reach-IsFilling}

module _ ⦃p : Platform⦄ where
  -- What is in flight when the blocks before `i` are sent.
  record IsSent (block : List Byte) (i n : ℕ) (dev : p.Dev) (s : System p.Dev) : Type 0 where
    pub balanced : IsBalanced s
    pub untouched : s.dev ≡ dev
    pub each : Each (Fills block n) s.pending
    pub some_of : (b : ℕ) → b < i → Some (λ r. r.start ≡ b) s.pending

  write_blocks_async-IsSent :
      (block : List Byte) (i n : ℕ) (dev : p.Dev) (s : System p.Dev)
      → length block ≡ 512
      → i < n
      → IsSent block i n dev s
      → IsSent block (i + 1) n dev (write_blocks_async data_reactor block i 1 s)
  unfolding write_blocks_async send_request
  write_blocks_async-IsSent block i n dev s sized low sent =
      let r : Request = record {
        transfer = w_request (take (1 * 512) block);
        start = i;
        nr = 1;
        reactor_id = data_reactor;
      } in
      record {
        balanced = unfold send_request in send_request-IsBalanced r s sent.balanced (omega arith);
        untouched = sent.untouched;
        each = Each-append_one (Fills block n) s.pending r sent.each (record {
          transfer = ap w_request (take-all 512 block (omega (arith, sized)));
          one = refl;
          low = low;
        });
        some_of = λ b before.
            Some-append_one (λ x. x.start ≡ b) s.pending r
              (elim (ℕ_discrete i b) [
                | yes at ↦ inr at
                | no ne ↦ inl (sent.some_of b (omega arith))
              ]);
      }

  write_from_async-IsSent :
      (block : List Byte) (rounds i : ℕ) (dev : p.Dev) (s : System p.Dev)
      → length block ≡ 512
      → IsSent block i (i + rounds) dev s
      → IsSent block (i + rounds) (i + rounds) dev (write_from_async block rounds i s)
  unfolding write_from_async
  write_from_async-IsSent block zero i dev s sized sent =
      subst (λ k. IsSent block k (i + 0) dev s) (omega arith) sent
  write_from_async-IsSent block (suc rounds) i dev s sized sent =
      let same : i + suc rounds ≡ i + 1 + rounds = omega arith in
      subst
        (λ k.
          IsSent block k k dev
            (write_from_async block rounds (i + 1) (write_blocks_async data_reactor block i 1 s)))
        (sym same)
        (write_from_async-IsSent block rounds (i + 1) dev
          (write_blocks_async data_reactor block i 1 s) sized
          (subst (λ k. IsSent block (i + 1) k dev (write_blocks_async data_reactor block i 1 s))
            same
            (write_blocks_async-IsSent block i (i + suc rounds) dev s sized (omega arith) sent)))

  -- All the requests of the asynchronous form.
  abbrev pub requests : (block : List Byte) → (n : ℕ) → World p.Dev → System p.Dev
  requests block n w = write_from_async block n 0 (quiet w (λ _. []))

  requests-IsSent :
      (block : List Byte) (n : ℕ) (w : World p.Dev)
      → length block ≡ 512
      → IsSent block n n w.dev (requests block n w)
  requests-IsSent block n w sized =
      subst (λ k. IsSent block k k w.dev (requests block n w)) (omega arith)
        (write_from_async-IsSent block n 0 w.dev (quiet w (λ _. [])) sized (record {
          balanced = quiet-IsBalanced w (λ _. []);
          untouched = refl;
          each = tt;
          some_of = λ b low. absurd (omega arith);
        }))

  -- However the reactors run, when the wait is over the blocks are written.
  SpinWait-IsFilled :
      (block : List Byte) (n : ℕ) (w : World p.Dev) {u : System p.Dev}
      → length block ≡ 512
      → SpinWait num_reactors 0 (requests block n w) u
      → IsFilled block n w.dev u.dev
  SpinWait-IsFilled block n w {u} sized go =
      let sent = requests-IsSent block n w sized in
      let drained = spin_wait-drained sent.balanced go in
      let inv : IsFilling block n w.dev u =
        Reach-IsFilling block sized
          (record {
            each = sent.each;
            inside = λ b low. inl (sent.some_of b low);
            outside = λ b high. ap (λ d. p.read d b 1) sent.untouched;
          })
          (SpinWait-Reach go) in
      record {
        inside = λ b low. elim (inv.inside b low) [
          | inl some_left ↦ absurd (subst (Some (λ r. r.start ≡ b)) drained some_left)
          | inr written ↦ written
        ];
        outside = inv.outside;
      }

  pub benchmark_raw_write-run :
      (block : List Byte) (num_blocks : CInt) (w : World p.Dev)
      → length block ≡ 512
      → (d : p.Dev) × (benchmark_raw_write block num_blocks w ≡ done tt (record w { dev = d }))
        × IsFilled block (rounds_of num_blocks) w.dev d
  unfolding benchmark_raw_write
  benchmark_raw_write-run block num_blocks w sized =
      let (d, run, inside, outside) = write_from-run block (rounds_of num_blocks) 0 w sized in
      (
        d,
        run,
        record {
          inside = λ b low. inside b (omega arith) (omega arith);
          outside = λ b high. outside b (inr (omega arith));
        },
      )

  pub benchmark_raw_write_async-run :
      (block : List Byte) (schedule : ℕ → ℕ) (num_blocks : CInt) (w : World p.Dev)
      → length block ≡ 512
      → (d : p.Dev) × (benchmark_raw_write_async block schedule num_blocks w
          ≡ done tt (record w { dev = d }))
        × IsFilled block (rounds_of num_blocks) w.dev d
  unfolding benchmark_raw_write_async with_requests
  benchmark_raw_write_async-run block schedule num_blocks w sized =
      let s : System p.Dev = requests block (rounds_of num_blocks) w in
      let sent = requests-IsSent block (rounds_of num_blocks) w sized in
      let u : System p.Dev = spin_wait schedule s in
      (
        u.dev,
        refl,
        SpinWait-IsFilled block (rounds_of num_blocks) w sized
            (spin_wait-SpinWait schedule s sent.balanced),
      )

  -- Both forms of the write benchmark, each with a buffer of one block that holds whatever the
  -- stack left in it, end for every number of blocks and change nothing but the device. Each leaves
  -- the content of its own buffer in the first `num_blocks` blocks (in none, if the number is
  -- negative), and in those behind them what they held before. For the asynchronous form this is so
  -- under every schedule, and for whatever state `u` the reactors may have reached when the wait on
  -- its requests is over.
  pub benchmark_raw_write-both :
      (block block' : List Byte) (schedule : ℕ → ℕ) (num_blocks : CInt) (w : World p.Dev)
      (u : System p.Dev)
      → length block ≡ 512
      → length block' ≡ 512
      → SpinWait num_reactors 0 (requests block' (rounds_of num_blocks) w) u
      → (d d' : p.Dev) × (benchmark_raw_write block num_blocks w ≡ done tt (record w { dev = d }))
        × (benchmark_raw_write_async block' schedule num_blocks w ≡ done tt (record w { dev = d' }))
        × IsFilled block (rounds_of num_blocks) w.dev d
        × IsFilled block' (rounds_of num_blocks) w.dev d'
        × IsFilled block' (rounds_of num_blocks) w.dev u.dev
  benchmark_raw_write-both block block' schedule num_blocks w u sized sized' go =
      let (d, run, filled) = benchmark_raw_write-run block num_blocks w sized in
      let (d', run', filled') = benchmark_raw_write_async-run block' schedule num_blocks w sized' in
      (
        d,
        d',
        run,
        run',
        filled,
        filled',
        SpinWait-IsFilled block' (rounds_of num_blocks) w sized' go,
      )

  -- The requests of the write benchmark are balanced, so the wait on them can end.
  pub requests-IsBalanced :
      (block : List Byte) (n : ℕ) (w : World p.Dev)
      → length block ≡ 512
      → IsBalanced (requests block n w)
  requests-IsBalanced block n w sized = (requests-IsSent block n w sized).balanced
