-- ===== src/Tests/Removals.antt =====
-- The theorem on rm at a name that the directory of Tests/Directories.antt does not have.
use test_fs.Prelude.{◌≡◌, ◌||◌, refl, false, some, [], ◌∷◌}
use test_fs.Platform.Ram.{ram}
use test_fs.World.{done}
use test_fs.Dir.{enoent, dot, dot_dot, str_eq}
use test_fs.Dir.Create.{Context, cmd_rm}
use test_fs.Dir.Missing.{cmd_rm-missing}
use test_fs.Shell.{codes}
use test_fs.Tests.Directories.{dir_world, directory-IsOpen, entries-Suffix}
use test_fs.Tests.Names.{letter_z, letter_z-IsText, lookup-letter_z}

abbrev rm_z : Context
rm_z = record { nargs = 2; cmd = codes "rm" ∷ letter_z ∷ []; cur_dir = some 1 }

letter_z-plain : (str_eq letter_z dot || str_eq letter_z dot_dot) ≡ false
unfolding str_eq
letter_z-plain = refl

cmd_rm-missing_example : cmd_rm ⦃p = ram⦄ rm_z dir_world ≡ done enoent dir_world
cmd_rm-missing_example =
    cmd_rm-missing ⦃p = ram⦄ rm_z directory-IsOpen entries-Suffix refl refl letter_z-IsText
      lookup-letter_z letter_z-plain refl
