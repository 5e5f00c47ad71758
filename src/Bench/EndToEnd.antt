-- ===== src/Bench/EndToEnd.antt =====
-- src/bench_e2e.c: writing files through the file system, with a wait for each block or with one
-- wait for all. The result of an operation that the source drops is dropped here.
use test_fs.Prelude.{
  ℕ, zero, suc, ◌+◌, ◌*◌, ◌%◌, ◌^◌, List, [], ◌∷◌, ltb, not, if◌then◌else◌, length, take,
}
use test_fs.Bytes.{Byte, CInt, le_int}
use test_fs.Platform.{Platform, block_size}
use test_fs.World.{Run, i_file, tx_write, Cmd, ◌>>=◌, ◌>>◌, pure, assert, non_null}
use test_fs.Tx
use test_fs.Csum.{flush_csum}
use test_fs.Freemap.{flush_block_freemap}
use test_fs.Inode.Table.{with_inode, load_inode, store_inode, get_inode, put_inode}
use test_fs.Alternate.{write_data_alternate}
use test_fs.Alternate.Bulk.{bulk_sync_inode}
use test_fs.Alternate.Flight.{
  Flight, lift, write_data_alternate_async, bulk_sync_inode_async, flush_block_freemap_async,
  flush_csum_async,
}
use test_fs.Dir.{Text, dir_name_to_inode_nr}
use test_fs.Dir.Create.{Context, create_file_or_dir, cmd_mkfs}
use test_fs.Files.{with_future}
use test_fs.Bench.{Surroundings, Calls, BenchDigest, rounds_of, get_random_bytes, run_trials}
use test_fs.Bench.Raw.{Line, rounds_to, digest_of}

-- FILENAME_LENGTH
abbrev pub filename_length : ℕ
filename_length = 5

-- The `int size` of a `size_t`, as the bytes of the content that the writes take.
abbrev pub sized : List Byte → List Byte
sized content = take (rounds_of (length content % 2 ^ 32)) content

module _ ⦃p : Platform⦄ where
  -- The loop of `benchmark_set_up`.
  unfoldable pub create_files : Context → (filenames : List Text) → Cmd (Unit {0})
  create_files c [] = pure tt
  create_files c (name ∷ names) = do
    ret ← create_file_or_dir c.cur_dir i_file name
    create_files c names

  -- benchmark_set_up
  unfoldable pub benchmark_set_up : (filenames : List Text) → Context → Cmd Context
  benchmark_set_up filenames c = do (ret, c') ← cmd_mkfs c; create_files c' filenames; pure c'

  -- The loop that fills `file_inodes`.
  unfoldable pub get_files : (dir : ℕ) → (filenames : List Text) → Cmd (List ℕ)
  get_files dir [] = pure []
  get_files dir (name ∷ names) = do
    inode_nr ← dir_name_to_inode_nr dir name
    nr ← get_inode inode_nr
    nrs ← get_files dir names
    pure (nr ∷ nrs)

  -- The loop over `testfs_put_inode`.
  unfoldable pub put_files : (file_inodes : List ℕ) → Cmd (Unit {0})
  put_files [] = pure tt
  put_files (nr ∷ nrs) = put_inode nr >> put_files nrs

  -- The loop over `testfs_write_data_alternate`.
  unfoldable pub write_files : (content : List Byte) → (file_inodes : List ℕ) → Cmd (Unit {0})
  write_files content [] = pure tt
  write_files content (nr ∷ nrs) = do
    ret ← with_inode nr (λ i. write_data_alternate i 0 (sized content))
    write_files content nrs

  -- benchmark_sync_writes
  unfoldable pub benchmark_sync_writes :
      Surroundings → (filenames : List Text) → (content : List Byte) → Context → Cmd (Unit {0})
  benchmark_sync_writes s filenames content c = do
    dir ← non_null c.cur_dir
    file_inodes ← get_files dir filenames
    Tx.start tx_write
    write_files content file_inodes
    bulk_sync_inode s.qsort file_inodes
    flush_block_freemap
    flush_csum
    Tx.commit tx_write
    put_files file_inodes

  -- `testfs_write_data_alternate_async` on the inode that a pointer points at.
  unfoldable pub write_file_async :
      (content : List Byte) → (nr : ℕ) → Flight p.Dev → Run (Flight p.Dev) CInt
  write_file_async content nr = do
    i ← lift (load_inode nr)
    (ret, j) ← write_data_alternate_async i 0 (sized content)
    lift (store_inode j)
    pure ret

  -- The loop over it.
  unfoldable pub write_files_async :
      (content : List Byte) → (file_inodes : List ℕ) → Flight p.Dev → Run (Flight p.Dev) (Unit {0})
  write_files_async content [] = pure tt
  write_files_async content (nr ∷ nrs) = do
    ret ← write_file_async content nr
    write_files_async content nrs

  -- What `benchmark_async_writes` sends on its future.
  unfoldable pub send_writes :
      Surroundings
      → (content : List Byte) → (file_inodes : List ℕ) → Flight p.Dev
      → Run (Flight p.Dev) (Unit {0})
  send_writes s content file_inodes = do
    write_files_async content file_inodes
    bulk_sync_inode_async s.qsort file_inodes
    flush_block_freemap_async
    flush_csum_async

  -- benchmark_async_writes
  unfoldable pub benchmark_async_writes :
      Surroundings → (filenames : List Text) → (content : List Byte) → Context → Cmd (Unit {0})
  benchmark_async_writes s filenames content c = do
    dir ← non_null c.cur_dir
    file_inodes ← get_files dir filenames
    Tx.start tx_write
    with_future s.order (send_writes s content file_inodes)
    Tx.commit tx_write
    put_files file_inodes

  module _ (s : Surroundings) where
    -- The names of the files; `sprintf` must stay inside its row.
    unfoldable pub name_files : (rounds i : ℕ) → Cmd (List Text)
    name_files zero i = pure []
    name_files (suc rounds) i = do
      assert (ltb (length (s.print_lu i)) filename_length)
      names ← name_files rounds (i + 1)
      pure (s.print_lu i ∷ names)

    -- benchmark_e2e_write
    unfoldable pub benchmark_e2e_write :
        (content : List Byte)
        → (num_trials : CInt) → (num_files : ℕ) → Context
        → Calls
        → Cmd (BenchDigest s.Double × Context × Calls)
    benchmark_e2e_write content num_trials num_files c n = do
      filenames ← name_files num_files 0
      digest_of s num_trials (
          run_trials s (benchmark_set_up filenames) (benchmark_sync_writes s filenames content)
            (benchmark_async_writes s filenames content) (rounds_of num_trials) c n)

    -- The loop of an experiment on the file system: the lines behind the header.
    unfoldable pub vary_files :
        (CInt → Context → Calls → Cmd (BenchDigest s.Double × Context × Calls))
        → (rounds varied : ℕ) → Context
        → Calls
        → Cmd (List (Line s.Double) × Context × Calls)
    vary_files bench zero varied c n = pure ([], c, n)
    vary_files bench (suc rounds) varied c n =
        let rest = vary_files bench rounds (varied + 1) in
        do
          (digest, c1, n1) ← bench varied c n
          (lines, c2, n2) ← rest c1 n1
          pure (record { varied = varied; digest = digest } ∷ lines, c2, n2)

    -- experiment_e2e_write_num_blocks. It writes no header where it has nothing to do, which is
    -- not kept.
    unfoldable pub experiment_e2e_write_num_blocks :
        (num_blocks_start num_blocks_end num_trials : CInt)
        → Context
        → Calls
        → Cmd (List (Line s.Double) × Context × Calls)
    experiment_e2e_write_num_blocks num_blocks_start num_blocks_end num_trials c n =
        if not (le_int num_blocks_start num_blocks_end)
        then pure ([], c, n)
        else vary_files
            (λ num_blocks c n.
              let size = num_blocks * block_size in
              benchmark_e2e_write (get_random_bytes s size n.draws) num_trials 1 c
                (record n { draws = n.draws + size }))
            (rounds_to num_blocks_start num_blocks_end) num_blocks_start c n

    -- experiment_e2e_write_num_files
    unfoldable pub experiment_e2e_write_num_files :
        (num_files_start num_files_end num_blocks num_trials : CInt)
        → Context
        → Calls
        → Cmd (List (Line s.Double) × Context × Calls)
    experiment_e2e_write_num_files num_files_start num_files_end num_blocks num_trials c n =
        let size = num_blocks * block_size in
        let content = get_random_bytes s size n.draws in
        vary_files (λ num_files c n. benchmark_e2e_write content num_trials num_files c n)
          (rounds_to num_files_start num_files_end) num_files_start c
          (record n { draws = n.draws + size })
