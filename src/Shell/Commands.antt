-- ===== src/Shell/Commands.antt =====
-- The commands behind the table of src/testfs.c, and the main loop. What a command prints is not
-- kept.
use test_fs.Prelude.{
  ℕ, ◌+◌, Bool, true, false, Option, none, some, List, [], ◌∷◌, ◌||◌, ◌==◌, if◌then◌else◌, length,
  drop,
}
use test_fs.Bytes.{Byte, CInt}
use test_fs.Platform.{Platform}
use test_fs.World.{i_dir, Cmd, ◌>>=◌, ◌>>◌, pure, assert, non_null}
use test_fs.Super.{init_super_block, flush_super_block}
use test_fs.Inode.Table.{get_inode, put_inode, inode_get_type}
use test_fs.Alternate.Flight.{Write}
use test_fs.Dir.{Text}
use test_fs.Dir.Create.{Context, argument, cmd_cd, cmd_create, cmd_rm, cmd_mkdir, cmd_mkfs}
use test_fs.Dir.Show.{cmd_pwd, cmd_ls, cmd_lsr, cmd_stat}
use test_fs.Files.{cmd_cat, cmd_catr, cmd_write, cmd_owrite, cmd_import, cmd_export}
use test_fs.Check.{cmd_checkfs}
use test_fs.Bench.{Surroundings}
use test_fs.Bench.Commands.{cmd_benchmark, cmd_experiment}
use test_fs.Shell.{
  Command, help, mkfs, cd, pwd, ls, lsr, create, stat, rm, mkdir, cat, catr, write, export, owrite,
  import_host, checkfs, benchmark, experiment, quit, Entry, cmdtable, non_fs_commands, find_entry,
  any_eq, parse_args, strtok, is_blank, is_newline,
}

-- What the shell uses of its surroundings: the depth of trees that are walked, the order of
-- completions, the C library, the files of the host, the value of a function that returns none,
-- and what the benchmarks use.
pub record Host : Type 1 where
  pub depth : ℕ
  pub order : List Write → List Write
  pub strtol : Text → CInt × Text
  pub open_read : Text → Option (List Byte)
  pub open_write : Text → Bool
  pub no_value : CInt
  pub surroundings : Surroundings

-- What `handle_command` did.
pub data Outcome : Type 0 where
  not_found no_file_system : Outcome
  ran : Command → CInt → Outcome

module _ ⦃p : Platform⦄ where
  abbrev keep : Context → Cmd CInt → Cmd (CInt × Context)
  keep c m = do ret ← m; pure (ret, c)

  -- `cmdtable[i].func(sb, c)`; `cmd_help` only prints, and `cmd_quit` sets a flag.
  unfoldable pub run_command : Host → Command → Context → Cmd (CInt × Context)
  run_command h help c = pure (0, c)
  run_command h mkfs c = cmd_mkfs c
  run_command h cd c = cmd_cd c
  run_command h pwd c = do (ret, out) ← cmd_pwd h.depth c; pure (ret, c)
  run_command h ls c = do (ret, out) ← cmd_ls h.depth c; pure (ret, c)
  run_command h lsr c = do (ret, out) ← cmd_lsr h.depth c; pure (ret, c)
  run_command h create c = keep c (cmd_create c)
  run_command h stat c = do (ret, out) ← cmd_stat c; pure (ret, c)
  run_command h rm c = keep c (cmd_rm c)
  run_command h mkdir c = keep c (cmd_mkdir c)
  run_command h cat c = do (ret, out) ← cmd_cat c; pure (ret, c)
  run_command h catr c = do (ret, c', out) ← cmd_catr h.depth c; pure (ret, c')
  run_command h write c = keep c (cmd_write h.order c)
  run_command h export c = do
    (ret, out) ← cmd_export (h.open_write (argument c 2)) c
    pure (elim ret [ none ↦ h.no_value | some n ↦ n ], c)
  run_command h owrite c = keep c (cmd_owrite h.strtol c)
  run_command h import_host c = keep c (cmd_import (h.open_read (argument c 2)) c)
  run_command h checkfs c = do r ← cmd_checkfs h.depth c.nargs; pure (r.ret, c)
  run_command h benchmark c = cmd_benchmark h.surroundings c
  run_command h experiment c = do
    (c', lines) ← cmd_experiment h.surroundings c
    pure (h.no_value, c')
  run_command h quit c = pure (0, c)

  -- fs_exists
  unfoldable pub fs_exists : Context → Cmd Bool
  fs_exists c = do dir ← non_null c.cur_dir; type ← inode_get_type dir; pure (type == i_dir)

  -- can_execute_command
  unfoldable pub can_execute_command : Context → Text → Cmd Bool
  can_execute_command c command = do
    exists ← fs_exists c
    pure (exists || any_eq command non_fs_commands)

  -- `c->cmd[0] = name`, which overwrites what an earlier line left there.
  unfoldable pub set_name : (name : Text) → Context → Context
  set_name name c = record c { cmd = name ∷ drop 1 c.cmd }

  -- `handle_command` with the entry of the command, behind the assignment of `c->cmd[0]`.
  unfoldable pub handle_entry :
      Host → Context → (name args : Text) → Option Entry → Cmd (Outcome × Context)
  handle_entry h c name args none = pure (not_found, c)
  handle_entry h c name args (some e) = do
    allowed ← can_execute_command c name
    if allowed
        then (do
          let cmd = parse_args e.max_args args
          (ret, c') ← run_command h e.func (record c { nargs = length cmd + 1; cmd = name ∷ cmd })
          pure (ran e.func ret, c'))
        else pure (no_file_system, c)

  -- handle_command, where the line has a name.
  unfoldable pub handle_command : Host → Context → (name args : Text) → Cmd (Outcome × Context)
  handle_command h c name args =
      handle_entry h (set_name name c) name args (find_entry name cmdtable)

  -- The flag `can_quit` behind a command.
  abbrev pub is_quit : Outcome → Bool
  is_quit (ran quit ret) = true
  is_quit _ = false

  -- A round of the loop with what the two calls of `strtok` returned; `rest` are the next rounds.
  unfoldable pub run_line :
      Host → (rest : Context → Cmd Context) → (name args : Option Text) → Context → Cmd Context
  run_line h rest none args c = rest c
  run_line h rest (some name) args c = do
    (outcome, c') ← handle_command h c name (elim args [ none ↦ [] | some t ↦ t ])
    if is_quit outcome then pure c' else rest c'

  -- The loop of `testfs_main` over the lines of the input.
  unfoldable pub main_loop : Host → (lines : List Text) → Context → Cmd Context
  main_loop h [] c = pure c
  main_loop h (line ∷ lines) c =
      let (name, after) = strtok is_blank line in
      run_line h (main_loop h lines) name (strtok is_newline after).0 c

  -- testfs_main, from `testfs_init_super_block` to `testfs_close_super_block`.
  unfoldable pub session : Host → (lines : List Text) → Cmd (Unit {0})
  session h lines = do
    ret ← init_super_block
    assert (ret == 0)
    nr ← get_inode 0
    c ← main_loop h lines (record { nargs = 0; cmd = []; cur_dir = some nr })
    file_system_exists ← fs_exists c
    dir ← non_null c.cur_dir
    put_inode dir
    if file_system_exists then flush_super_block else pure tt
