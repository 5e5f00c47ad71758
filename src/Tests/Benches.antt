-- ===== src/Tests/Benches.antt =====
-- The theorems on the benchmarks at concrete inputs.
use test_fs.Prelude.{
  ℕ, ◌≡◌, ◌+◌, ◌*◌, ◌/◌, ◌%◌, ap, suc, length, none, some, true, List, [], ◌∷◌, arith,
}
use test_fs.Platform.Ram.{Ram, ram}
use test_fs.World.{done}
use test_fs.Bytes.{Byte, zero_bytes}
use test_fs.Bytes.Laws.{length-zero_bytes}
use test_fs.Async.{System, SpinWait, num_reactors}
use test_fs.Async.Wait.{spin_wait-returns}
use test_fs.Bench.{Surroundings, Calls, BenchDigest, populate_digest}
use test_fs.Bench.Raw.{benchmark_raw_write, benchmark_raw_write_async, benchmark_raw_seq_write}
use test_fs.Bench.Filling
use test_fs.Bench.Overwrite
use test_fs.Bench.Readout
use test_fs.Bench.Range.{IsRangeOf, populate_digest-IsRangeOf}
use test_fs.Bench.Trials.{benchmark_raw_seq_write-IsFilled}
use test_fs.Tests.Witnesses.{world}

-- A buffer of one block.
abbrev pub filled_with : Byte → List Byte
filled_with x = x ∷ zero_bytes 511

pub length-filled_with : (x : Byte) → length (filled_with x) ≡ 512
length-filled_with x = ap suc (length-zero_bytes 511)

-- A clock that ticks at each reading, and a machine whose doubles are numbers.
abbrev pub ticking : Surroundings
ticking = record {
  gettimeofday = λ n. record { tv_sec = 0; tv_usec = n };
  rand = λ n. n;
  strtol = λ t. 0;
  print_lu = λ n. n ∷ [];
  qsort = λ compare l. l;
  open_read = λ t. none;
  open_append = λ t. true;
  order = λ writes. writes;
  schedule = λ round. 1;
  stack = λ n. filled_with (n % 256);
  length-stack = λ n. length-filled_with (n % 256);
  Double = ℕ;
  of_int = λ x. x;
  of_long_long = λ x. x;
  add = λ x y. x + y;
  div = λ x y. x / y;
}

abbrev no_calls : Calls
no_calls = record { readings = 0; draws = 0 }

abbrev written :
    (u : System Ram) × SpinWait ⦃p = ram⦄ num_reactors 0
      (Overwrite.requests ⦃p = ram⦄ (filled_with 9) 3 world)
      u
    × (u.pending ≡ [])
written =
    spin_wait-returns ⦃p = ram⦄
      (Overwrite.requests-IsBalanced ⦃p = ram⦄ (filled_with 9) 3 world (length-filled_with 9))

abbrev read_out :
    (u : System Ram) × SpinWait ⦃p = ram⦄ num_reactors 0 (Readout.requests ⦃p = ram⦄ 3 world) u
    × (u.pending ≡ [])
read_out = spin_wait-returns ⦃p = ram⦄ (Readout.requests-IsBalanced ⦃p = ram⦄ 3 world)

benchmark_raw_write-both_example :
    (d d' : Ram) × (benchmark_raw_write ⦃p = ram⦄ (filled_with 7) 3 world
      ≡ done tt (record world { dev = d }))
    × (benchmark_raw_write_async ⦃p = ram⦄ (filled_with 9) (λ round. 1) 3 world
        ≡ done tt (record world { dev = d' }))
    × Filling.IsFilled ⦃p = ram⦄ (filled_with 7) 3 world.dev d
    × Filling.IsFilled ⦃p = ram⦄ (filled_with 9) 3 world.dev d'
    × Filling.IsFilled ⦃p = ram⦄ (filled_with 9) 3 world.dev written.0.dev
benchmark_raw_write-both_example =
    Overwrite.benchmark_raw_write-both ⦃p = ram⦄ (filled_with 7) (filled_with 9) (λ round. 1) 3
      world written.0 (length-filled_with 7) (length-filled_with 9) written.1

benchmark_raw_seq_write-IsFilled_example :
    (digest : BenchDigest ℕ) × (n' : Calls) × (d : Ram) × (benchmark_raw_seq_write ⦃p = ram⦄ ticking
        2 3 no_calls world
      ≡ done (digest, n') (record world { dev = d }))
    × (digest.trials ≡ 2)
    × (n'.readings ≡ 0 + 4 * 2)
    × Filling.IsFilled ⦃p = ram⦄ (filled_with 4) 3 world.dev d
benchmark_raw_seq_write-IsFilled_example =
    benchmark_raw_seq_write-IsFilled ⦃p = ram⦄ ticking 2 3 no_calls world (omega arith)

-- Three results on each side, of which the first two are read.
populate_digest-IsRangeOf_example :
    (d : BenchDigest ℕ) × (populate_digest ticking (7 ∷ 3 ∷ 9 ∷ []) (4 ∷ 4 ∷ 5 ∷ []) 2 ≡ some d)
    × (d.trials ≡ 2)
    × IsRangeOf (7 ∷ 3 ∷ []) d.sync
    × IsRangeOf (4 ∷ 4 ∷ []) d.async
populate_digest-IsRangeOf_example =
    populate_digest-IsRangeOf ticking (7 ∷ 3 ∷ 9 ∷ []) (4 ∷ 4 ∷ 5 ∷ []) 2 (omega arith)
      (omega arith) (omega arith)
