-- ===== src/Tests/Directories.antt =====
-- The theorems on directories, at a directory with two entries on a device in memory.
use native.Mathlib.Decide.{dec_lt, ℕ_discrete}
use test_fs.Prelude.{
  ℕ, zero, suc, ◌+◌, ◌/◌, ◌%◌, ◌<◌, ◌≡◌, ◌≢◌, refl, sym, ◌∙◌, ap, ap₂, subst, List, [], ◌∷◌, ◌++◌,
  some, arith, length, get_or, get_or-append_left, ◌==◌, if◌then◌else◌,
}
use test_fs.Bytes
use test_fs.Bytes.{Byte, neg, zero_bytes}
use test_fs.Platform.Ram
use test_fs.Platform.Ram.{Ram, ram}
use test_fs.World.{World, Inode, done}
use test_fs.Block.Laws.{block_at}
use test_fs.Inode.Map.Laid.{InData}
use test_fs.Inode.Map.{phys, phys-direct, phys-none, IsMapped}
use test_fs.Inode.Table
use test_fs.Inode.Table.{hash_find}
use test_fs.Dir.{Dirent, dir_name_to_inode_nr, find_dirent, encode_dirent, taken}
use test_fs.Dir.Show.{c_string, text_eq}
use test_fs.Dir.Entries.{IsOpen, Suffix, encode_all}
use test_fs.Dir.Lookup.{
  lookup, is_named, entry_of, spot, dir_name_to_inode_nr-lookup, find_dirent-entry_of,
}
use test_fs.Tests.Bits.{full, full-is_set, full-IsValid}
use test_fs.Tests.Witnesses.{world_of, empty_file, world_of-IsReady}

-- The entry of "aa", free, and then that of "b".
abbrev gone : Dirent
gone = record { d_name_len = 3; d_inode_nr = 4294967295; d_name = 97 ∷ 97 ∷ 0 ∷ [] }

abbrev named_b : Dirent
named_b = record { d_name_len = 2; d_inode_nr = 5; d_name = 98 ∷ 0 ∷ [] }

abbrev pub entries : List Dirent
entries = gone ∷ named_b ∷ []

abbrev entry_bytes : List Byte
entry_bytes =
    3 ∷ 0 ∷ 0 ∷ 0 ∷ 255 ∷ 255 ∷ 255 ∷ 255 ∷ 97 ∷ 97 ∷ 0 ∷ 2 ∷ 0 ∷ 0 ∷ 0 ∷ 5 ∷ 0 ∷ 0 ∷ 0 ∷ 98 ∷ 0
    ∷ []

abbrev directory : Inode
directory = record empty_file {
  din = record {
    i_type = 2;
    i_size = 21;
    i_mod_time = 0;
    i_block_nr = 300 ∷ 0 ∷ 0 ∷ 0 ∷ [];
    i_indirect = 0;
  };
}

abbrev pub dir_world : World Ram
dir_world = record (world_of full) {
  dev = λ n o. if n == 300 then get_or entry_bytes o 0 else 0;
  inode_hash_table = λ _. directory ∷ [];
}

dir_world-find : hash_find ⦃p = ram⦄ 1 dir_world ≡ some directory
unfolding hash_find Table.find_in
dir_world-find = refl

first_phys : phys ⦃p = ram⦄ directory dir_world 0 ≡ 300
first_phys = phys-direct directory dir_world 0 (omega arith)

other_phys : (l : ℕ) → l ≢ 0 → phys ⦃p = ram⦄ directory dir_world l ≡ 0
other_phys l ne = elim (dec_lt l 4) [
  | yes d ↦ phys-direct directory dir_world l d ∙ zeros l ne
  | no far ↦ phys-none directory dir_world l (omega arith) refl
]
  where
    zeros : (k : ℕ) → k ≢ 0 → get_or {A = ℕ} (300 ∷ 0 ∷ 0 ∷ 0 ∷ []) k 0 ≡ 0
    zeros zero h = absurd (h refl)
    zeros (suc zero) h = refl
    zeros (suc (suc zero)) h = refl
    zeros (suc (suc (suc zero))) h = refl
    zeros (suc (suc (suc (suc k)))) h = refl

only_first : (l : ℕ) → phys ⦃p = ram⦄ directory dir_world l ≢ 0 → l ≡ 0
only_first l ne = elim (ℕ_discrete l 0) [ yes z ↦ z | no o ↦ absurd (ne (other_phys l o)) ]

b_not_nul : ◌≢◌ {A = ℕ} 98 0
b_not_nul e = omega arith

the_block : block_at ⦃p = ram⦄ dir_world 300 ≡ entry_bytes ++ zero_bytes 491
unfolding Ram.read Ram.bytes_from Bytes.zero_bytes
the_block = refl

directory-IsMapped : IsMapped ⦃p = ram⦄ directory dir_world full
directory-IsMapped = record {
  ready = world_of-IsReady full full-IsValid refl;
  direct = refl;
  laid = record {
    blocks = λ l _ ne.
        subst (InData 192 full)
          (sym first_phys ∙ ap (phys ⦃p = ram⦄ directory dir_world) (sym (only_first l ne)))
          (record {
            above = omega arith;
            below = omega arith;
            used = full-is_set 108 (omega arith);
          });
    at_indirect = λ ne. absurd (ne refl);
    apart = λ l m _ _ ne e. only_first l ne ∙ sym (only_first m (λ z. ne (e ∙ z)));
    beside = λ l _ ne e. ne e;
  };
}

pub directory-IsOpen : IsOpen ⦃p = ram⦄ 1 directory dir_world full
directory-IsOpen = record {
  found = dir_world-find;
  number = refl;
  type = refl;
  mapped = directory-IsMapped;
  fits = omega arith;
  blocks = λ q h z.
      zero_ne (sym first_phys ∙ ap (phys ⦃p = ram⦄ directory dir_world) (first_block q h) ∙ z);
}
  where
    zero_ne : ◌≢◌ {A = ℕ} 300 0
    zero_ne e = omega arith

    first_block : (q : ℕ) → q < 21 → 0 ≡ q / 512
    first_block q h = omega arith

entries-bytes : encode_all entries ≡ entry_bytes
unfolding encode_dirent
entries-bytes = refl

pub entries-Suffix : Suffix ⦃p = ram⦄ directory dir_world 0 entries
entries-Suffix = record {
  holds = λ x h.
      let small : x < 21 = omega (arith, ap length entries-bytes) in
      ap (λ b. get_or b x 0) entries-bytes
      ∙ sym (get_or-append_left entry_bytes (zero_bytes 491) x 0 small)
      ∙ ap (λ b. get_or b x 0) (sym the_block)
      ∙ ap₂ (λ n k. get_or (block_at ⦃p = ram⦄ dir_world n) k 0)
          (sym first_phys ∙ ap (phys ⦃p = ram⦄ directory dir_world) (div_small x small))
          (mod_small x small);
  ends = omega (arith, ap length entries-bytes);
  valid = (
    record { len = refl; some_name = omega arith; short = omega arith; number = omega arith },
    (record { len = refl; some_name = omega arith; short = omega arith; number = omega arith }, tt),
  );
}
  where
    div_small : (x : ℕ) → x < 21 → 0 ≡ (0 + x) / 512
    div_small x h = omega arith

    mod_small : (x : ℕ) → x < 21 → x ≡ (0 + x) % 512
    mod_small x h = omega arith

dir_name_to_inode_nr-lookup_example :
    dir_name_to_inode_nr ⦃p = ram⦄ 1 (98 ∷ []) dir_world ≡ done (lookup (98 ∷ []) entries) dir_world
dir_name_to_inode_nr-lookup_example =
    dir_name_to_inode_nr-lookup ⦃p = ram⦄ directory-IsOpen (98 ∷ []) entries (b_not_nul, tt)
      entries-Suffix

lookup-b : lookup (98 ∷ []) entries ≡ 5
unfolding lookup is_named c_string text_eq
lookup-b = refl

find_dirent-entry_of_example :
    find_dirent ⦃p = ram⦄ 1 5 dir_world ≡ done (entry_of 5 entries) dir_world
find_dirent-entry_of_example =
    find_dirent-entry_of ⦃p = ram⦄ directory-IsOpen 5 entries (omega arith) entries-Suffix

b-taken : spot (98 ∷ []) 2 0 entries ≡ taken
unfolding spot is_named c_string text_eq
b-taken = refl
