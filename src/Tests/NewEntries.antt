-- ===== src/Tests/NewEntries.antt =====
-- The theorems on adding an entry, at an empty directory on a device in memory.
use native.Mathlib.Decide.{dec_lt}
use test_fs.Prelude.{ℕ, ◌≡◌, ◌≢◌, refl, ◌∙◌, [], ◌∷◌, some, arith, get_or-replicate}
use test_fs.Bytes.{CInt}
use test_fs.Bitmap.{Bitmap}
use test_fs.Platform.Ram.{Ram, ram}
use test_fs.World.{World, Inode, done}
use test_fs.Inode.Map.{phys, phys-direct, phys-none}
use test_fs.Inode.Table
use test_fs.Inode.Table.{hash_find}
use test_fs.Dir.{Text, add_dirent, dir_name_to_inode_nr, taken}
use test_fs.Dir.Entries.{IsOpen, Suffix}
use test_fs.Dir.Lookup.{IsText, spot}
use test_fs.Dir.Insert.{insert}
use test_fs.Dir.Reopen.{new_entry}
use test_fs.Dir.Add.{add_dirent-insert, dir_name_to_inode_nr-add_dirent}
use test_fs.Tests.Bits.{fresh, fresh-count}
use test_fs.Tests.Witnesses.{world, empty_file, empty_file-IsMapped}

abbrev empty_dir : Inode
empty_dir = record empty_file { din = record (empty_file.din) { i_type = 2 } }

abbrev empty_dir_world : World Ram
empty_dir_world = record world { inode_hash_table = λ _. empty_dir ∷ [] }

empty_dir-phys : (l : ℕ) → phys ⦃p = ram⦄ empty_dir empty_dir_world l ≡ 0
empty_dir-phys l = elim (dec_lt l 4) [
  | yes d ↦ phys-direct empty_dir empty_dir_world l d ∙ get_or-replicate 4 l 0 0 d
  | no far ↦ phys-none empty_dir empty_dir_world l (omega arith) refl
]

empty_dir-found : hash_find ⦃p = ram⦄ 1 empty_dir_world ≡ some empty_dir
unfolding hash_find Table.find_in
empty_dir-found = refl

empty_dir-IsOpen : IsOpen ⦃p = ram⦄ 1 empty_dir empty_dir_world fresh
empty_dir-IsOpen = record {
  found = empty_dir-found;
  number = refl;
  type = refl;
  mapped = record {
    ready = empty_file-IsMapped.ready;
    direct = refl;
    laid = record {
      blocks = λ l _ ne. absurd (ne (empty_dir-phys l));
      at_indirect = λ ne. absurd (ne refl);
      apart = λ l m _ _ ne _. absurd (ne (empty_dir-phys l));
      beside = λ l _ ne. absurd (ne (empty_dir-phys l));
    };
  };
  fits = omega arith;
  blocks = λ q h. absurd (omega arith);
}

empty_dir-Suffix : Suffix ⦃p = ram⦄ empty_dir empty_dir_world 0 []
empty_dir-Suffix = record { holds = λ x h. absurd (omega arith); ends = refl; valid = tt }

abbrev letter_a : Text
letter_a = 97 ∷ []

letter_a-IsText : IsText letter_a
letter_a-IsText = (λ e. omega arith, tt)

first_spot : spot letter_a 2 0 [] ≢ taken
first_spot = unfold spot in λ e. cc e

add_dirent-insert_example :
    (j : Inode) × (v : World Ram) × (map : Bitmap) × (add_dirent ⦃p = ram⦄ 1 letter_a 7
        empty_dir_world
      ≡ done 0 v)
    × IsOpen ⦃p = ram⦄ 1 j v map
    × Suffix ⦃p = ram⦄ j v 0 (insert (new_entry ⦃p = ram⦄ letter_a 7) [])
add_dirent-insert_example =
    add_dirent-insert ⦃p = ram⦄ empty_dir-IsOpen empty_dir-Suffix letter_a 7 (omega arith)
      (omega arith) (omega (arith, fresh-count)) letter_a-IsText first_spot

dir_name_to_inode_nr-add_dirent_example :
    (v : World Ram) × (add_dirent ⦃p = ram⦄ 1 letter_a 7 empty_dir_world ≡ done 0 v)
    × (dir_name_to_inode_nr ⦃p = ram⦄ 1 letter_a v ≡ done 7 v)
    × ((other : Text)
        → IsText other
        → other ≢ letter_a
        → (result : CInt) × (dir_name_to_inode_nr ⦃p = ram⦄ 1 other empty_dir_world
            ≡ done result empty_dir_world)
          × (dir_name_to_inode_nr ⦃p = ram⦄ 1 other v ≡ done result v))
dir_name_to_inode_nr-add_dirent_example =
    dir_name_to_inode_nr-add_dirent ⦃p = ram⦄ empty_dir-IsOpen empty_dir-Suffix letter_a 7
      (omega arith) (omega arith) (omega (arith, fresh-count)) letter_a-IsText first_spot
