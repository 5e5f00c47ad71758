-- ===== src/Dir/Missing.antt =====
-- Removing a name that a directory does not have: `testfs_remove_dirent` and `cmd_rm` of src/dir.c.
use test_fs.Prelude.{
  ℕ, zero, suc, ◌+◌, ◌<◌, ◌≡◌, refl, sym, ◌∙◌, ap, Bool, true, false, some, List, [], ◌∷◌, arith,
  length, ◌||◌, ◌&&◌, not, if◌then◌else◌,
}
use test_fs.Bytes.{CInt, is_neg}
use test_fs.Bitmap.{Bitmap}
use test_fs.Platform.{Platform}
use test_fs.World.{World, Inode, Cmd, tx_none, tx_rm, done}
use test_fs.Tx
use test_fs.Inode.Map.{phys}
use test_fs.Inode.Map.Laid.{IsLaid-same}
use test_fs.Inode.Table.{hash_find}
use test_fs.Dir.{Text, Dirent, dot, dot_dot, enoent, str_eq}
use test_fs.Dir.Remove.{free_dirent, remove_from, remove_dirent}
use test_fs.Dir.Create.{Context, argument, cmd_rm}
use test_fs.Dir.Show.{c_string, text_eq}
use test_fs.Dir.Entries.{IsOpen, Suffix, Suffix-next, next_dirent-end, next_dirent-some}
use test_fs.Dir.Lookup.{IsText, is_named, lookup, str_eq-c_string, get_size-run, enough}

-- No entry in use has a name that is looked up in vain.
lookup-enoent :
    (name : Text) (d : Dirent) (ds : List Dirent)
    → lookup name (d ∷ ds) ≡ enoent
    → (is_named name d ≡ false) × (lookup name ds ≡ enoent)
unfolding lookup is_named
lookup-enoent name d ds h = decide (is_neg d.d_inode_nr) (text_eq (c_string d.d_name) name) refl h
  where
    decide :
        (a b : Bool)
        → is_neg d.d_inode_nr ≡ a
        → (if not a && b then d.d_inode_nr else lookup name ds) ≡ enoent
        → ((not a && b) ≡ false) × (lookup name ds ≡ enoent)
    decide true b e h = (refl, h)
    decide false false e h = (refl, h)
    decide false true e h = absurd (cc (sym e ∙ ap is_neg h))

module _ ⦃p : Platform⦄ {nr : ℕ} {i : Inode} {w : World p.Dev} {free : Bitmap}
    (o : IsOpen nr i w free) where
  remove_from-missing :
      (fuel : ℕ) (name : Text) (ds : List Dirent) (offset : ℕ)
      → IsText name
      → length ds < fuel
      → Suffix i w offset ds
      → lookup name ds ≡ enoent
      → remove_from fuel nr name offset w ≡ done enoent w
  unfolding remove_from
  remove_from-missing zero name ds offset t h s none_named = absurd (omega arith)
  remove_from-missing (suc fuel) name [] offset t h s none_named = rw (next_dirent-end o offset s)
  remove_from-missing (suc fuel) name (d ∷ ds) offset t h s none_named =
      let (other, later) = lookup-enoent name d ds none_named in
      rw (next_dirent-some o offset d ds s, str_eq-c_string d.d_name name t)
        (decide _ (free_dirent nr offset d) (is_neg d.d_inode_nr) (text_eq (c_string d.d_name) name)
          (unfold is_named in other)
          (remove_from-missing fuel name ds (offset + 8 + length d.d_name) t (omega arith)
            (Suffix-next s) later))
    where
      decide :
          (x y : Cmd CInt) (a b : Bool)
          → (not a && b) ≡ false
          → x w ≡ done enoent w
          → (if a || not b then x else y) w ≡ done enoent w
      decide x y true b e h = h
      decide x y false false e h = h
      decide x y false true e h = absurd (cc e)

  -- In an open directory without the name, `testfs_remove_dirent` of a text that is neither "." nor
  -- ".." returns ENOENT and leaves the world as it is.
  remove_dirent-missing :
      (name : Text) (ds : List Dirent)
      → IsText name
      → Suffix i w 0 ds
      → lookup name ds ≡ enoent
      → (str_eq name dot || str_eq name dot_dot) ≡ false
      → remove_dirent nr name w ≡ done enoent w
  unfolding remove_dirent
  remove_dirent-missing name ds t s none_named plain =
      rw (plain, get_size-run o)
        (remove_from-missing (i.din.i_size + 1) name ds 0 t (enough o ds s) s none_named)

module _ ⦃p : Platform⦄ where
  -- A directory is open, and has its entries, whatever the transaction.
  in_transaction :
      {nr : ℕ} {i : Inode} {w : World p.Dev} {free : Bitmap} {ds : List Dirent}
      → IsOpen nr i w free
      → Suffix i w 0 ds
      → IsOpen nr i (record w { fs = record w.fs { tx_in_progress = tx_rm } }) free
        × Suffix i (record w { fs = record w.fs { tx_in_progress = tx_rm } }) 0 ds
  unfolding phys hash_find
  in_transaction o s = (
    record {
      found = o.found;
      number = o.number;
      type = o.type;
      mapped = record {
        ready = record {
          freemap_before_data = o.mapped.ready.freemap_before_data;
          csums_before_data = o.mapped.ready.csums_before_data;
          small = o.mapped.ready.small;
          csums = o.mapped.ready.csums;
          here = o.mapped.ready.here;
          valid = o.mapped.ready.valid;
          size = o.mapped.ready.size;
        };
        direct = o.mapped.direct;
        laid = IsLaid-same o.mapped.laid (λ k _. refl);
      };
      fits = o.fits;
      blocks = o.blocks;
    },
    record { holds = s.holds; ends = s.ends; valid = s.valid },
  )

  -- When no transaction is in progress, `cmd_rm` of a text that the current directory, open and
  -- with its entries listed, does not have as a name, and that is neither "." nor "..", returns
  -- ENOENT, and its transaction is over: the world is as before.
  pub cmd_rm-missing :
      {nr : ℕ} {i : Inode} {w : World p.Dev} {free : Bitmap} {ds : List Dirent} (c : Context)
      → IsOpen nr i w free
      → Suffix i w 0 ds
      → c.nargs ≡ 2
      → c.cur_dir ≡ some nr
      → IsText (argument c 1)
      → lookup (argument c 1) ds ≡ enoent
      → (str_eq (argument c 1) dot || str_eq (argument c 1) dot_dot) ≡ false
      → w.fs.tx_in_progress ≡ tx_none
      → cmd_rm c w ≡ done enoent w
  unfolding cmd_rm Tx.start Tx.commit
  cmd_rm-missing {w} {ds} c o s two here t none_named plain idle =
      let (o', s') = in_transaction o s in
      rw (two, idle, here, remove_dirent-missing o' (argument c 1) ds t s' none_named plain) refl
