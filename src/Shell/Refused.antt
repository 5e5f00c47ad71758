-- ===== src/Shell/Refused.antt =====
-- A shell without a file system: what `can_execute_command` of src/testfs.c keeps from running, line
-- after line.
use test_fs.Prelude.{◌≡◌, ◌≢◌, ℕ, refl, false, Option, some, none, ne→==, List, [], ◌∷◌}
use test_fs.Platform.{Platform}
use test_fs.World.{World, Inode, i_dir, Cmd, done}
use test_fs.Inode.Table.{hash_find, inode_get_type}
use test_fs.Inode.Table.Sync.{load_inode-run}
use test_fs.Dir.{Text}
use test_fs.Dir.Create.{Context}
use test_fs.Shell.{
  Entry, cmdtable, non_fs_commands, find_entry, any_eq, strtok, is_blank, is_newline,
}
use test_fs.Shell.Commands.{
  Host, Outcome, not_found, no_file_system, is_quit, fs_exists, can_execute_command, set_name,
  handle_entry, handle_command, run_line, main_loop,
}

-- There is no command, or it is not in the list `non_fs_commands`.
abbrev pub IsUnlisted : Option Text → Type 0
IsUnlisted none = Unit {0}
IsUnlisted (some name) = any_eq name non_fs_commands ≡ false

-- The same for the first word of each line.
abbrev pub AllUnlisted : List Text → Type 0
AllUnlisted [] = Unit {0}
AllUnlisted (line ∷ lines) = IsUnlisted (strtok is_blank line).0 × AllUnlisted lines

-- What the lines leave of a context: only `cmd` may be another.
pub record IsKept (c c' : Context) : Type 0 where
  pub nargs : c'.nargs ≡ c.nargs
  pub cur_dir : c'.cur_dir ≡ c.cur_dir

module _ ⦃p : Platform⦄ where
  fs_exists-run :
      (c : Context) (w : World p.Dev) (dir : ℕ) {i : Inode}
      → c.cur_dir ≡ some dir
      → hash_find dir w ≡ some i
      → i.din.i_type ≢ i_dir
      → fs_exists c w ≡ done false w
  unfolding fs_exists inode_get_type
  fs_exists-run c w dir {i} at found none_here =
      rw (at, load_inode-run w dir found, ne→== i.din.i_type i_dir none_here)

  handle_command-run :
      (h : Host) (c : Context) (name args : Text) (w : World p.Dev) (dir : ℕ) {i : Inode}
      → c.cur_dir ≡ some dir
      → hash_find dir w ≡ some i
      → i.din.i_type ≢ i_dir
      → any_eq name non_fs_commands ≡ false
      → (o : Outcome) × (handle_command h c name args w ≡ done (o, set_name name c) w)
        × (is_quit o ≡ false)
  unfolding handle_command
  handle_command-run h c name args w dir at found none_here unlisted =
      refuse (find_entry name cmdtable)
    where
      refuse :
          (e : Option Entry)
          → (o : Outcome) × (handle_entry h (set_name name c) name args e w
              ≡ done (o, set_name name c) w)
            × (is_quit o ≡ false)
      refuse none = (not_found, unfold handle_entry in refl, refl)
      refuse (some e) = (
        no_file_system,
        unfold handle_entry can_execute_command in
            rw
              (
                fs_exists-run (set_name name c) w dir (unfold set_name in at) found none_here,
                unlisted,
              )
              refl,
        refl,
      )

  -- A round that keeps the context, when the next rounds do.
  run_line-run :
      (h : Host) (rest : Context → Cmd Context) (token args : Option Text) (c : Context)
      (w : World p.Dev) (dir : ℕ) {i : Inode}
      → c.cur_dir ≡ some dir
      → hash_find dir w ≡ some i
      → i.din.i_type ≢ i_dir
      → IsUnlisted token
      → ((d : Context)
          → d.cur_dir ≡ some dir
          → (c' : Context) × (rest d w ≡ done c' w) × IsKept d c')
      → (c' : Context) × (run_line h rest token args c w ≡ done c' w) × IsKept c c'
  unfolding run_line set_name
  run_line-run h rest none args c w dir at found none_here unlisted next = next c at
  run_line-run h rest (some name) args c w dir at found none_here unlisted next =
      let text : Text = elim args [ none ↦ [] | some t ↦ t ] in
      let (o, ran, going) = handle_command-run h c name text w dir at found none_here unlisted in
      let (c', run, kept) = next (set_name name c) at in
      (c', rw (ran, going) run, record { nargs = kept.nargs; cur_dir = kept.cur_dir })

  -- When the inode of the current directory is no directory, and every line of a session is empty
  -- or names a command that is not in the list `non_fs_commands`, the main loop runs to the end of
  -- the lines, whatever their arguments, and leaves the world, the current directory and the number
  -- of arguments in the context as they are.
  pub main_loop-refused :
      (h : Host) (lines : List Text) (c : Context) (w : World p.Dev) (dir : ℕ) {i : Inode}
      → c.cur_dir ≡ some dir
      → hash_find dir w ≡ some i
      → i.din.i_type ≢ i_dir
      → AllUnlisted lines
      → (c' : Context) × (main_loop h lines c w ≡ done c' w) × IsKept c c'
  unfolding main_loop
  main_loop-refused h [] c w dir at found none_here unlisted =
      (c, refl, record { nargs = refl; cur_dir = refl })
  main_loop-refused h (line ∷ lines) c w dir at found none_here (unlisted, others) =
      let (name, after) = strtok is_blank line in
      run_line-run h (main_loop h lines) name (strtok is_newline after).0 c w dir at found none_here
        unlisted (λ d at'. main_loop-refused h lines d w dir at' found none_here others)
