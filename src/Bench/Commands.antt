-- ===== src/Bench/Commands.antt =====
-- The commands `bench` and `run-experiments`: `cmd_benchmark` and `cmd_experiment` of src/bench.c,
-- with the subcommands of src/bench_e2e.c and src/bench_raw.c. What they print is not kept.
use test_fs.Prelude.{
  ℕ, zero, suc, ◌%◌, ◌^◌, Option, none, some, List, [], ◌∷◌, ◌++◌, ltb, if◌then◌else◌,
}
use test_fs.Bytes.{Byte, CInt}
use test_fs.Platform.{Platform}
use test_fs.World.{Cmd, ◌>>=◌, ◌>>◌, pure, assert, non_null}
use test_fs.Csum.{einval}
use test_fs.Dir.{Text}
use test_fs.Dir.Create.{Context}
use test_fs.Dir.Show.{text_eq}
use test_fs.Shell.{codes}
use test_fs.Bench.{Surroundings, Calls}
use test_fs.Bench.Raw.{
  Line, benchmark_raw_seq_read, benchmark_raw_seq_write, experiment_raw_seq_read,
  experiment_raw_seq_write,
}
use test_fs.Bench.EndToEnd.{
  benchmark_e2e_write, experiment_e2e_write_num_blocks, experiment_e2e_write_num_files,
}

-- `c->cmd[i]`, which is NULL behind the last argument.
unfoldable pub nth_of : List Text → (i : ℕ) → Option Text
nth_of [] i = none
nth_of (t ∷ ts) zero = some t
nth_of (t ∷ ts) (suc i) = nth_of ts i

-- The conversion of a long to an int.
abbrev pub as_int : ℕ → CInt
as_int n = n % 2 ^ 32

-- The calls are counted from the start of a command.
abbrev no_calls : Calls
no_calls = record { readings = 0; draws = 0 }

module _ ⦃p : Platform⦄ (s : Surroundings) where
  -- subcmd_benchmark_raw_seq_read
  unfoldable pub subcmd_benchmark_raw_seq_read : Context → Cmd (CInt × Context)
  subcmd_benchmark_raw_seq_read c = if ltb c.nargs 3 then pure (einval, c) else (do
    num_trials ← non_null (nth_of c.cmd 2)
    num_blocks ← non_null (nth_of c.cmd 3)
    (digest, n) ←
        benchmark_raw_seq_read s (as_int (s.strtol num_trials)) (as_int (s.strtol num_blocks))
          no_calls
    pure (0, c))

  -- subcmd_benchmark_raw_seq_write
  unfoldable pub subcmd_benchmark_raw_seq_write : Context → Cmd (CInt × Context)
  subcmd_benchmark_raw_seq_write c = if ltb c.nargs 3 then pure (einval, c) else (do
    num_trials ← non_null (nth_of c.cmd 2)
    num_blocks ← non_null (nth_of c.cmd 3)
    (digest, n) ←
        benchmark_raw_seq_write s (as_int (s.strtol num_trials)) (as_int (s.strtol num_blocks))
          no_calls
    pure (0, c))

  -- `subcmd_benchmark_e2e_write` with what `read_file` returned.
  unfoldable pub benchmark_content :
      Option (List Byte) → (num_trials : CInt) → (num_files : ℕ) → Context → Cmd (CInt × Context)
  benchmark_content none num_trials num_files c = pure (einval, c)
  benchmark_content (some content) num_trials num_files c = do
    (digest, c', n) ← benchmark_e2e_write s content num_trials num_files c no_calls
    pure (0, c')

  -- subcmd_benchmark_e2e_write
  unfoldable pub subcmd_benchmark_e2e_write : Context → Cmd (CInt × Context)
  subcmd_benchmark_e2e_write c = if ltb c.nargs 4 then pure (einval, c) else (do
    file ← non_null (nth_of c.cmd 2)
    num_trials ← non_null (nth_of c.cmd 3)
    num_files ← non_null (nth_of c.cmd 4)
    benchmark_content (s.open_read file) (as_int (s.strtol num_trials)) (s.strtol num_files) c)

  -- `cmd_benchmark` with the name of the benchmark.
  unfoldable pub run_benchmark : (name : Text) → Context → Cmd (CInt × Context)
  run_benchmark name c =
      if text_eq name (codes "e2e_write")
      then subcmd_benchmark_e2e_write c
      else if text_eq name (codes "raw_seq_read")
      then subcmd_benchmark_raw_seq_read c
      else if text_eq name (codes "raw_seq_write")
      then subcmd_benchmark_raw_seq_write c
      else pure (einval, c)

  -- cmd_benchmark
  unfoldable pub cmd_benchmark : Context → Cmd (CInt × Context)
  cmd_benchmark c =
      if ltb c.nargs 1
      then pure (einval, c)
      else (do name ← non_null (nth_of c.cmd 1); run_benchmark name c)

  -- EXPERIMENT: the file that the lines go to must open.
  unfoldable pub experiment_to : {A : Type 0} → (name : Text) → Cmd A → Cmd A
  experiment_to name expr = do assert (s.open_append (name ++ codes ".csv")); expr

  -- cmd_experiment: the context, and the lines of each file. It ends without a value.
  unfoldable pub cmd_experiment : Context → Cmd (Context × List (List (Line s.Double)))
  cmd_experiment c = do
    (raw_read, n1) ←
        experiment_to (codes "raw_seq_read") (experiment_raw_seq_read s 1 200 5 no_calls)
    (raw_write, n2) ← experiment_to (codes "raw_seq_write") (experiment_raw_seq_write s 1 200 5 n1)
    (num_blocks, c3, n3) ←
        experiment_to (codes "e2e_write_num_blocks")
          (experiment_e2e_write_num_blocks s 1 110 5 c n2)
    (num_files_100, c4, n4) ←
        experiment_to (codes "e2e_write_num_files_100bl")
          (experiment_e2e_write_num_files s 1 50 100 5 c3 n3)
    (num_files_10, c5, n5) ←
        experiment_to (codes "e2e_write_num_files_10bl")
          (experiment_e2e_write_num_files s 1 50 10 5 c4 n4)
    pure (c5, raw_read ∷ raw_write ∷ num_blocks ∷ num_files_100 ∷ num_files_10 ∷ [])
