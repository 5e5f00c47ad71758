-- ===== src/Tests/Names.antt =====
-- The theorems on commands with names that the directory of Tests/Directories.antt has or lacks.
use test_fs.Prelude.{ℕ, ◌≡◌, refl, true, false, none, some, List, [], ◌∷◌, arith}
use test_fs.Bytes
use test_fs.Platform.Ram.{ram}
use test_fs.World.{done}
use test_fs.Alternate.Flight.{Write}
use test_fs.Dir.{Text, enoent, eexist, str_eq}
use test_fs.Dir.Lookup.{IsText, lookup, is_named}
use test_fs.Dir.Create.{Context, cmd_cd, cmd_create, cmd_mkdir}
use test_fs.Dir.Show.{c_string, text_eq, cmd_stat}
use test_fs.Files.{cmd_cat, cmd_write, cmd_import, cmd_export}
use test_fs.Files.Names.{at, commands_missing, commands_taken}
use test_fs.Shell.{codes}
use test_fs.Tests.Directories.{entries, dir_world, directory-IsOpen, entries-Suffix}

abbrev pub letter_z : Text
letter_z = 122 ∷ []

abbrev letter_b : Text
letter_b = 98 ∷ []

pub letter_z-IsText : IsText letter_z
letter_z-IsText = (λ e. omega arith, tt)

letter_b-IsText : IsText letter_b
letter_b-IsText = (λ e. omega arith, tt)

pub lookup-letter_z : lookup letter_z entries ≡ enoent
unfolding lookup is_named c_string text_eq
lookup-letter_z = refl

letter_z-root : str_eq letter_z (47 ∷ []) ≡ false
unfolding str_eq
letter_z-root = refl

lookup-letter_b : Bytes.is_neg (lookup letter_b entries) ≡ false
unfolding lookup is_named c_string text_eq
lookup-letter_b = refl

abbrev in_order : List Write → List Write
in_order writes = writes

abbrev z_command : ℕ → Context
z_command =
    at ⦃p = ram⦄ directory-IsOpen entries-Suffix letter_z letter_z-IsText (codes "command")
      (codes "text" ∷ [])

abbrev b_command : ℕ → Context
b_command =
    at ⦃p = ram⦄ directory-IsOpen entries-Suffix letter_b letter_b-IsText (codes "command")
      (codes "text" ∷ [])

commands_missing_example :
    (cmd_cd ⦃p = ram⦄ (z_command 2) dir_world ≡ done (enoent, z_command 2) dir_world)
    × (cmd_cat ⦃p = ram⦄ (z_command 2) dir_world ≡ done (enoent, []) dir_world)
    × (cmd_stat ⦃p = ram⦄ (z_command 2) dir_world ≡ done (enoent, []) dir_world)
    × (cmd_write ⦃p = ram⦄ in_order (z_command 3) dir_world ≡ done enoent dir_world)
    × (cmd_export ⦃p = ram⦄ true (z_command 3) dir_world ≡ done (some enoent, []) dir_world)
commands_missing_example =
    commands_missing ⦃p = ram⦄ directory-IsOpen entries-Suffix letter_z letter_z-IsText
      (codes "command") (codes "text" ∷ []) lookup-letter_z letter_z-root in_order

commands_taken_example :
    (cmd_create ⦃p = ram⦄ (b_command 2) dir_world ≡ done eexist dir_world)
    × (cmd_mkdir ⦃p = ram⦄ (b_command 2) dir_world ≡ done eexist dir_world)
    × (cmd_import ⦃p = ram⦄ none (b_command 3) dir_world ≡ done eexist dir_world)
commands_taken_example =
    commands_taken ⦃p = ram⦄ directory-IsOpen entries-Suffix letter_b letter_b-IsText
      (codes "command") (codes "text" ∷ []) lookup-letter_b none
