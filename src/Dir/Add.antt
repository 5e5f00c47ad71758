-- ===== src/Dir/Add.antt =====
-- `testfs_add_dirent` of src/dir.c on a directory that is open: the entries that it then has.
use test_fs.Prelude.{
  ℕ, ◌+◌, ◌*◌, ◌/◌, ◌^◌, ◌≤◌, ◌<◌, ◌≡◌, ◌≢◌, refl, sym, ◌∙◌, ap, subst, inl, inr, List, [], ◌∷◌,
  ◌++◌, arith, length, length-append, eq→==,
}
use test_fs.Bytes.{CInt}
use test_fs.Bitmap.{Bitmap, nr_allocated}
use test_fs.Platform.{Platform}
use test_fs.World.{World, Inode, done}
use test_fs.Inode.Map.Get.{not_neg_of}
use test_fs.Inode.Data.Bytes.{max_size}
use test_fs.Inode.Data.Write.{Written, write_data-Written}
use test_fs.Inode.Table.{hash_replace, store_inode, with_inode}
use test_fs.Inode.Table.Sync.{load_inode-run}
use test_fs.Dir.{
  Text, Dirent, encode_dirent, taken, write_dirent, fill_spot, add_dirent, dir_name_to_inode_nr,
}
use test_fs.Dir.Entries.{IsDirent, encode_all, length-encode_dirent, IsOpen, Suffix}
use test_fs.Dir.Lookup.{
  get_type-run, get_size-run, spot_from-spot, enough, IsText, lookup, spot,
  dir_name_to_inode_nr-lookup,
}
use test_fs.Dir.Reopen.{new_entry, new_entry-IsDirent, reopened-IsOpen, reopened-Suffix}
use test_fs.Dir.Insert.{insert, encode_all-append, Place, spot-Place}
use test_fs.Dir.Found.{is_named_self, is_named_other, lookup-insert, lookup-insert_other}

module _ ⦃p : Platform⦄ where
  module _ {nr : ℕ} {i : Inode} {w : World p.Dev} {free : Bitmap} {ds : List Dirent}
      (o : IsOpen nr i w free) (s : Suffix i w 0 ds) (name : Text) (inode_nr : ℕ)
      (low : inode_nr < 2 ^ 31) (fits : i.din.i_size + (length name + 9) ≤ max_size)
      (room : nr_allocated free + 2 * ((length name + 9) / 512 + 2) ≤ 7680) where
    length-new_entry : length (encode_dirent (new_entry name inode_nr)) ≡ length name + 9
    length-new_entry =
        omega (arith, length-encode_dirent (new_entry name inode_nr), length-append name (0 ∷ []))

    write_dirent-run :
        (r : Place name (new_entry name inode_nr) 0 ds)
        → (j : Inode) × (v : World p.Dev) × (write_dirent nr name
              (length name + 1)
              inode_nr
              (length (encode_all r.before))
              w
            ≡ done 0 (hash_replace j v))
          × Written i w free
              (length (encode_all r.before))
              (encode_dirent (new_entry name inode_nr))
              0
              j
              v
    unfolding write_dirent with_inode store_inode
    write_dirent-run r =
        let (j, v, run, t) =
          write_data-Written (length (encode_all r.before))
            (encode_dirent (new_entry name inode_nr)) o.mapped (omega (arith, length-new_entry))
            inside (omega (arith, o.fits)) (omega (arith, length-new_entry, inside))
            (ap_room length-new_entry) in
        (j, v, rw (not_neg_of inode_nr low, load_inode-run w nr o.found, run) refl, t)
      where
        inside : length (encode_all r.before) ≤ i.din.i_size
        inside = omega (
          arith,
          s.ends,
          ap length (ap encode_all r.whole ∙ encode_all-append r.before (r.old ++ r.after)),
          length-append (encode_all r.before) (encode_all (r.old ++ r.after)),
        )

        ap_room : {n : ℕ} → n ≡ length name + 9 → nr_allocated free + 2 * (n / 512 + 2) ≤ 7680
        ap_room {n} e = subst (λ k. nr_allocated free + 2 * (k / 512 + 2) ≤ 7680) (sym e) room

    fill_spot-run :
        (r : Place name (new_entry name inode_nr) 0 ds) {v : World p.Dev}
        → write_dirent nr name (length name + 1) inode_nr (length (encode_all r.before)) w
          ≡ done 0 v
        → fill_spot nr name (length name + 1) inode_nr (spot name (length name + 1) 0 ds) w
          ≡ done 0 v
    unfolding fill_spot
    fill_spot-run r run = elim r.at [
      | inl e ↦ rw (e, zero_plus (length (encode_all r.before))) run
      | inr (e, total) ↦
          rw
            (
              e,
              zero_plus (length (encode_all r.before)),
              get_size-run o,
              eq→== (length (encode_all r.before)) i.din.i_size (omega (arith, total, s.ends)),
            )
            run
    ]
      where
        zero_plus : (n : ℕ) → 0 + n ≡ n
        zero_plus n = omega arith

    -- Adding an entry with a number that is not negative to an open directory whose entries are
    -- listed, with room in the file and on the device, for a text without NUL that no entry in use
    -- has before the place of the new one: the result is 0, and the directory is open with the new
    -- entry over the first free one of its length, or at the end.
    pub add_dirent-insert :
        IsText name
        → spot name (length name + 1) 0 ds ≢ taken
        → (j : Inode) × (v : World p.Dev) × (map : Bitmap) × (add_dirent nr name inode_nr w
            ≡ done 0 v)
          × IsOpen nr j v map
          × Suffix j v 0 (insert (new_entry name inode_nr) ds)
    unfolding add_dirent
    add_dirent-insert text free_name =
        let valid : IsDirent (new_entry name inode_nr) =
          new_entry-IsDirent name inode_nr (omega arith) low in
        let r = spot-Place name (new_entry name inode_nr) valid 0 ds s.valid free_name in
        let (j, v, run, t) = write_dirent-run r in
        let small : length (encode_all r.before) + length (encode_dirent (new_entry name inode_nr))
            ≤ max_size =
          omega (
            arith,
            length-new_entry,
            s.ends,
            ap length (ap encode_all r.whole ∙ encode_all-append r.before (r.old ++ r.after)),
            length-append (encode_all r.before) (encode_all (r.old ++ r.after)),
          ) in
        (
          j,
          hash_replace j v,
          t.map,
          rw
              (
                get_type-run o,
                get_size-run o,
                spot_from-spot o (i.din.i_size + 1) name (length name + 1) ds 0 text (enough o ds s)
                    s,
              )
              (fill_spot-run r run),
          reopened-IsOpen o s valid r t small,
          reopened-Suffix o s valid r t small,
        )

    -- After an entry with a number that is not negative is added to an open directory whose entries
    -- are listed, with room in the file and on the device, for a text without NUL that no entry in
    -- use has before the place of the new one: a lookup of its name gives its number, and a lookup
    -- of every other name what it gave before.
    pub dir_name_to_inode_nr-add_dirent :
        IsText name
        → spot name (length name + 1) 0 ds ≢ taken
        → (v : World p.Dev) × (add_dirent nr name inode_nr w ≡ done 0 v)
          × (dir_name_to_inode_nr nr name v ≡ done inode_nr v)
          × ((other : Text)
              → IsText other
              → other ≢ name
              → (result : CInt) × (dir_name_to_inode_nr nr other w ≡ done result w)
                × (dir_name_to_inode_nr nr other v ≡ done result v))
    dir_name_to_inode_nr-add_dirent text free_name =
        let (j, v, map, run, o', s') = add_dirent-insert text free_name in
        let d : Dirent = new_entry name inode_nr in
        (
          v,
          run,
          dir_name_to_inode_nr-lookup o' name (insert d ds) text s'
              ∙ ap (λ n. done n v)
                  (lookup-insert name d 0 ds
                    (is_named_self name (length name + 1) inode_nr text (not_neg_of inode_nr low))
                    free_name),
          λ other t ne. (
            lookup other ds,
            dir_name_to_inode_nr-lookup o other ds t s,
            dir_name_to_inode_nr-lookup o' other (insert d ds) t s'
                ∙ ap (λ n. done n v)
                    (lookup-insert_other other d ds
                      (is_named_other name other (length name + 1) inode_nr text ne)),
          ),
        )
