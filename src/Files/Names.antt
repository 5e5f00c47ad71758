-- ===== src/Files/Names.antt =====
-- The commands of src/file.c and src/dir.c on names that a directory does not have, or has.
use test_fs.Prelude.{ℕ, ◌≡◌, refl, ◌∙◌, ap, true, false, Option, some, List, [], ◌∷◌}
use test_fs.Bytes.{Byte, CInt, is_neg}
use test_fs.Bitmap.{Bitmap}
use test_fs.Platform.{Platform}
use test_fs.World.{World, Inode, done}
use test_fs.Alternate.Flight.{Write}
use test_fs.Dir.{Text, Dirent, enoent, eexist, str_eq, dir_name_to_inode_nr}
use test_fs.Dir.Entries.{IsOpen, Suffix}
use test_fs.Dir.Lookup.{IsText, lookup, dir_name_to_inode_nr-lookup}
use test_fs.Dir.Create.{Context, create_file_or_dir, cmd_cd, create_from, cmd_create, cmd_mkdir}
use test_fs.Dir.Show.{stat_from, cmd_stat}
use test_fs.Files.{cat_from, cmd_cat, open_file, cmd_write, cmd_import, cmd_export}

module _ ⦃p : Platform⦄ {nr : ℕ} {i : Inode} {w : World p.Dev} {free : Bitmap} {ds : List Dirent}
    (o : IsOpen nr i w free) (s : Suffix i w 0 ds) (name : Text) (text : IsText name)
    (command : Text) (rest : List Text) where
  -- A command in the directory, with the name as its first argument.
  abbrev pub at : (nargs : ℕ) → Context
  at nargs = record { nargs = nargs; cmd = command ∷ name ∷ rest; cur_dir = some nr }

  -- In an open directory without the name, the commands cd, cat, stat, write and export that are
  -- given it return ENOENT, print and write nothing, and leave the world and the current directory
  -- as they are.
  pub commands_missing :
      lookup name ds ≡ enoent
      → str_eq name (47 ∷ []) ≡ false
      → (order : List Write → List Write)
      → (cmd_cd (at 2) w ≡ done (enoent, at 2) w)
        × (cmd_cat (at 2) w ≡ done (enoent, []) w)
        × (cmd_stat (at 2) w ≡ done (enoent, []) w)
        × (cmd_write order (at 3) w ≡ done enoent w)
        × (cmd_export true (at 3) w ≡ done (some enoent, []) w)
  unfolding cmd_cd cmd_cat cat_from cmd_stat stat_from cmd_write open_file cmd_export
  commands_missing missing no_root order =
      (rw (no_root, absent) refl, rw absent refl, rw absent refl, rw absent refl, rw absent refl)
    where
      absent : dir_name_to_inode_nr nr name w ≡ done enoent w
      absent = dir_name_to_inode_nr-lookup o name ds text s ∙ ap (λ n. done n w) missing

  -- In an open directory that has the name, the commands touch, mkdir and import that are given it
  -- return EEXIST, and leave the world as it is.
  pub commands_taken :
      is_neg (lookup name ds) ≡ false
      → (host : Option (List Byte))
      → (cmd_create (at 2) w ≡ done eexist w)
        × (cmd_mkdir (at 2) w ≡ done eexist w)
        × (cmd_import host (at 3) w ≡ done eexist w)
  unfolding cmd_create create_from cmd_mkdir cmd_import
  commands_taken used host = (rw (taken 1) refl, taken 2, rw (taken 1) refl)
    where
      taken : (type : CInt) → create_file_or_dir (some nr) type name w ≡ done eexist w
      taken type =
          unfold create_file_or_dir in rw (dir_name_to_inode_nr-lookup o name ds text s, used) refl
