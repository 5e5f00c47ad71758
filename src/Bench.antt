-- ===== src/Bench.antt =====
-- src/bench.c and include/bench.h: measuring, random bytes and the digest of the results. The clock,
-- the C library, the files of the host, the doubles of the machine and what the device does with
-- requests in flight are parameters.
pub mod Raw
pub mod EndToEnd
pub mod Commands
pub mod Filling
pub mod Overwrite
pub mod Readout
pub mod Range
pub mod Trials
use test_fs.Prelude.{
  ℕ, zero, suc, ◌+◌, ◌-◌, ◌*◌, ◌%◌, ◌^◌, Bool, Option, none, some, List, [], ◌∷◌, ltb, length, ◌≡◌,
  if◌then◌else◌,
}
use test_fs.Bytes.{Byte, CInt, is_neg}
use test_fs.Platform.{Platform}
use test_fs.World.{Cmd, ◌>>=◌, ◌>>◌, pure}
use test_fs.Alternate.Flight.{Write}
use test_fs.Dir.{Text}

-- A `long long` as its pattern below 2 ^ 64.
abbrev pub LongLong : Type 0
LongLong = ℕ

-- Its place among all of them, from -2 ^ 63 on.
abbrev pub rank : LongLong → ℕ
rank x = (x + 2 ^ 63) % 2 ^ 64

-- M_MIN
abbrev pub m_min : LongLong → LongLong → LongLong
m_min x y = if ltb (rank x) (rank y) then x else y

-- M_MAX
abbrev pub m_max : LongLong → LongLong → LongLong
m_max x y = if ltb (rank y) (rank x) then x else y

-- The rounds of `for (int i = 0; i < n; i++)`.
abbrev pub rounds_of : CInt → ℕ
rounds_of n = if is_neg n then 0 else n

-- struct timeval
pub record Timeval : Type 0 where
  pub tv_sec : LongLong
  pub tv_usec : LongLong

-- What the benchmarks use of their surroundings. The clock is read, and `rand` called, for the n-th
-- time; `strtol` gives the pattern of a long. `stack n` is what the n-th of the buffers that the raw
-- writes never fill holds.
pub record Surroundings : Type 1 where
  pub gettimeofday : ℕ → Timeval
  pub rand : ℕ → ℕ
  pub strtol : Text → LongLong
  pub print_lu : ℕ → Text
  pub qsort : (ℕ → ℕ → CInt) → List ℕ → List ℕ
  pub open_read : Text → Option (List Byte)
  pub open_append : Text → Bool
  pub order : List Write → List Write
  pub schedule : ℕ → ℕ
  pub stack : ℕ → List Byte
  pub length-stack : (n : ℕ) → length (stack n) ≡ 512
  pub Double : Type 0
  pub of_int : CInt → Double
  pub of_long_long : LongLong → Double
  pub add : Double → Double → Double
  pub div : Double → Double → Double

-- How often the clock was read and `rand` was called.
pub record Calls : Type 0 where
  pub readings : ℕ
  pub draws : ℕ

-- The seconds and microseconds between two readings. The source goes through doubles, which are
-- exact below 2 ^ 53.
unfoldable pub elapsed : Timeval → Timeval → LongLong
elapsed t0 t1 =
    ((t1.tv_sec + 2 ^ 64 - t0.tv_sec) * 1000000 + (t1.tv_usec + 2 ^ 64 - t0.tv_usec)) % 2 ^ 64

-- struct bench_result
pub record BenchResult (D : Type 0) : Type 0 where
  pub max_us : LongLong
  pub min_us : LongLong
  pub avg_us : D

-- struct bench_digest
pub record BenchDigest (D : Type 0) : Type 0 where
  pub trials : CInt
  pub sync : BenchResult D
  pub async : BenchResult D

module _ (s : Surroundings) where
  -- The loop of `populate_digest`, for one side: the rounds left, and the results from index `i`
  -- on. None where `results[i]` is out of bounds.
  unfoldable pub digest_from :
      (num_trials_d : s.Double)
      → (rounds : ℕ) → List LongLong
      → BenchResult s.Double
      → Option (BenchResult s.Double)
  digest_from num_trials_d zero results r = some r
  digest_from num_trials_d (suc rounds) [] r = none
  digest_from num_trials_d (suc rounds) (x ∷ xs) r = digest_from num_trials_d rounds xs (record {
    max_us = m_max r.max_us x;
    min_us = m_min r.min_us x;
    avg_us = s.add r.avg_us (s.div (s.of_long_long x) num_trials_d);
  })

  -- The digest of both sides.
  unfoldable pub digest_both :
      CInt → (sync async : Option (BenchResult s.Double)) → Option (BenchDigest s.Double)
  digest_both num_trials (some sync) (some async) =
      some (record { trials = num_trials; sync = sync; async = async })
  digest_both num_trials _ _ = none

  -- populate_digest; none where it reads the results out of bounds.
  unfoldable pub populate_digest :
      (results_sync_us results_async_us : List LongLong)
      → (num_trials : CInt) → Option (BenchDigest s.Double)
  populate_digest (x ∷ xs) (y ∷ ys) num_trials =
      digest_both num_trials
        (digest_from (s.of_int num_trials) (rounds_of num_trials) (x ∷ xs)
          (record { max_us = x; min_us = x; avg_us = s.of_int 0 }))
        (digest_from (s.of_int num_trials) (rounds_of num_trials) (y ∷ ys)
          (record { max_us = y; min_us = y; avg_us = s.of_int 0 }))
  populate_digest _ _ num_trials = none

  -- get_random_bytes
  unfoldable pub get_random_bytes : (size draws : ℕ) → List Byte
  get_random_bytes zero draws = []
  get_random_bytes (suc size) draws = s.rand draws % 256 ∷ get_random_bytes size (draws + 1)

  module _ ⦃p : Platform⦄ where
    -- MEASURE_USEC
    unfoldable pub measure_usec : Cmd (Unit {0}) → Calls → Cmd (LongLong × Calls)
    measure_usec expr n = do
      expr
      pure (
        elapsed (s.gettimeofday n.readings) (s.gettimeofday (n.readings + 1)),
        record n { readings = n.readings + 2 },
      )

    -- The loop over the trials of a benchmark: both sides are set up and measured.
    unfoldable pub run_trials :
        {C : Type 0}
        → (set_up : C → Cmd C) → (sync async : C → Cmd (Unit {0})) → (rounds : ℕ) → C
        → Calls
        → Cmd (List LongLong × List LongLong × C × Calls)
    run_trials set_up sync async zero c n = pure ([], [], c, n)
    run_trials set_up sync async (suc rounds) c n =
        let rest = run_trials set_up sync async rounds in
        do
          c1 ← set_up c
          (sync_us, n1) ← measure_usec (sync c1) n
          c2 ← set_up c1
          (async_us, n2) ← measure_usec (async c2) n1
          (results_sync_us, results_async_us, c3, n3) ← rest c2 n2
          pure (sync_us ∷ results_sync_us, async_us ∷ results_async_us, c3, n3)
