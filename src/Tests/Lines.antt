-- ===== src/Tests/Lines.antt =====
-- The theorems on the shell at concrete lines.
use test_fs.Prelude.{ℕ, none, false, ◌≢◌, ◌≡◌, ◌≤◌, ◌+◌, refl, List, [], ◌∷◌, arith, length, some}
use test_fs.Shell.{
  strtok, skip, span, any_eq, parse_args, cmdtable, codes, max_args, find_entry, Entry, owrite,
}
use test_fs.Shell.Words.{unwords, parse_args-unwords}
use test_fs.Shell.Bounds.{parse_args-bound}
use test_fs.Dir.{Text}
use test_fs.Dir.Create.{Context}
use test_fs.Platform.Ram.{ram}
use test_fs.World.{done}
use test_fs.Shell.Commands.{Host, main_loop}
use test_fs.Shell.Refused.{IsKept, AllUnlisted, main_loop-refused}
use test_fs.Tests.Benches.{ticking}
use test_fs.Tests.Inodes.{open_world, open_world-find}
use test_fs.Dir.Show.{text_eq}

abbrev three_words : List Text
three_words = codes "file" ∷ codes "512" ∷ codes "text" ∷ []

parse_args-unwords_example : parse_args 3 (unwords three_words) ≡ three_words
parse_args-unwords_example =
    parse_args-unwords 3 three_words (omega arith)
      (
        (omega arith, (refl, (refl, (refl, (refl, tt))))),
        (
          (omega arith, (refl, (refl, (refl, tt)))),
          ((omega arith, (refl, (refl, (refl, (refl, tt))))), tt),
        ),
      )
      (omega arith)

abbrev owrite_entry : Entry
owrite_entry = record { name = codes "owrite"; func = owrite; max_args = 3 }

owrite-find : find_entry (codes "owrite") cmdtable ≡ some owrite_entry
unfolding find_entry text_eq
owrite-find = refl

parse_args-bound_example :
    length (codes "owrite" ∷ parse_args 3 (codes "a b c d e f g h")) ≤ max_args + 1
parse_args-bound_example = parse_args-bound (codes "owrite") (codes "a b c d e f g h") owrite-find

-- Inode 1 of the world, a file, is where the root directory would be.
abbrev no_fs : Context
no_fs = record { nargs = 0; cmd = []; cur_dir = some 1 }

abbrev silent : Host
silent = record {
  depth = 1;
  order = λ writes. writes;
  strtol = λ s. (0, s);
  open_read = λ _. none;
  open_write = λ _. false;
  no_value = 0;
  surroundings = ticking;
}

-- `ls`, an empty line, and a name that is not in the table.
abbrev session_lines : List Text
session_lines = codes "ls" ∷ [] ∷ codes "dir x" ∷ []

session_lines-AllUnlisted : AllUnlisted session_lines
unfolding strtok skip span any_eq text_eq
session_lines-AllUnlisted = (refl, (tt, (refl, tt)))

file_not_dir : ◌≢◌ {A = ℕ} 1 2
file_not_dir e = omega arith

main_loop-refused_example :
    (c' : Context) × (main_loop ⦃p = ram⦄ silent session_lines no_fs open_world
      ≡ done c' open_world)
    × IsKept no_fs c'
main_loop-refused_example =
    main_loop-refused ⦃p = ram⦄ silent session_lines no_fs open_world 1 refl open_world-find
      file_not_dir session_lines-AllUnlisted
