-- ===== src/Dir/Reopen.antt =====
-- The directory that `testfs_write_dirent` of src/dir.c leaves: an entry in its place, the others as
-- before.
use test_fs.Prelude.{
  ℕ, ◌+◌, ◌-◌, ◌/◌, ◌^◌, ◌≤◌, ◌<◌, ◌≡◌, ◌≢◌, refl, sym, ◌∙◌, ap, subst, ◌⊎◌, inl, inr, some, List,
  [], ◌∷◌, ◌++◌, arith, length, length-append, get_or, get_or-append_left, get_or-append_right,
}
use native.Mathlib.Decide.{dec_lt}
use test_fs.Bytes.{max_int}
use test_fs.Bitmap.{Bitmap}
use test_fs.Platform.{Platform}
use test_fs.World.{World, Inode}
use test_fs.Inode.Map.{phys, IsMapped}
use test_fs.Inode.Map.Laid.{IsLaid-same}
use test_fs.Inode.Data.Bytes.{max_size, byte_at}
use test_fs.Inode.Data.Read.{Holds}
use test_fs.Inode.Data.Write.{Written}
use test_fs.Inode.Table.{find_in, replace_in, hash_fn, update_chain, hash_find, hash_replace}
use test_fs.Inode.Table.Dinode.{find_in-replace_in}
use test_fs.Inode.Table.Sync.{hash_find-update_chain}
use test_fs.Dir.{Text, Dirent, encode_dirent}
use test_fs.Dir.Entries.{IsDirent, AllDirents, encode_all, IsOpen, Suffix}
use test_fs.Dir.Insert.{insert, encode_all-append, Place}

module _ ⦃p : Platform⦄ where
  -- The table of inodes is not part of the map.
  IsMapped-table :
      {j : Inode} {v : World p.Dev} {map : Bitmap} (i : Inode)
      → IsMapped j v map
      → IsMapped j (hash_replace i v) map
  unfolding phys hash_replace update_chain
  IsMapped-table i m = record {
    ready = m.ready;
    direct = m.direct;
    laid = IsLaid-same m.laid (λ k _. refl);
  }

  phys-table : (i j : Inode) (v : World p.Dev) (k : ℕ) → phys j (hash_replace i v) k ≡ phys j v k
  unfolding phys hash_replace update_chain
  phys-table i j v k = refl

  byte_at-table :
      (i j : Inode) (v : World p.Dev) (q : ℕ) → byte_at j (hash_replace i v) q ≡ byte_at j v q
  unfolding phys hash_replace update_chain
  byte_at-table i j v q = refl

  hash_find_self :
      (nr : ℕ) (j : Inode) (w v : World p.Dev) {i : Inode}
      → v.inode_hash_table ≡ w.inode_hash_table
      → j.i_nr ≡ nr
      → hash_find nr w ≡ some i
      → hash_find nr (hash_replace j v) ≡ some j
  unfolding hash_find find_in hash_replace update_chain
  hash_find_self nr j w v same e h =
      subst (λ k. hash_find nr (update_chain k (replace_in j) v) ≡ some j) (sym e)
        (hash_find-update_chain nr (replace_in j) v
          ∙ find_in-replace_in (v.inode_hash_table (hash_fn nr)) nr j e
              (ap (λ t. find_in nr (t (hash_fn nr))) same ∙ h))

  max_small :
      (a b : ℕ) → a < 2 ^ 31 → b < 2 ^ 31 → (b ≤ a → max_int a b ≡ a) × (a ≤ b → max_int a b ≡ b)
  max_small a b ha hb = (λ h. ground arith, λ h. ground arith)

  -- The entry that is written, and the directory with it.
  abbrev pub new_entry : Text → ℕ → Dirent
  new_entry name nr = record {
    d_name_len = length name + 1;
    d_inode_nr = nr;
    d_name = name ++ 0 ∷ [];
  }

  pub new_entry-IsDirent :
      (name : Text) (nr : ℕ) → length name + 1 < 2 ^ 31 → nr < 2 ^ 31 → IsDirent (new_entry name nr)
  new_entry-IsDirent name nr short low = record {
    len = sym (length-append name (0 ∷ []));
    some_name = omega (arith, length-append name (0 ∷ []));
    short = omega (arith, length-append name (0 ∷ []));
    number = omega arith;
  }

  AllDirents-replace :
      (before old after : List Dirent) (d : Dirent)
      → AllDirents (before ++ (old ++ after))
      → IsDirent d
      → AllDirents (before ++ (d ∷ after))
  AllDirents-replace [] [] after d vs v = (v, vs)
  AllDirents-replace [] (e ∷ old) after d vs v = AllDirents-replace [] old after d vs.1 v
  AllDirents-replace (b ∷ before) old after d vs v =
      (vs.0, AllDirents-replace before old after d vs.1 v)

  module _ {nr : ℕ} {i : Inode} {w : World p.Dev} {free : Bitmap} {ds : List Dirent}
      (o : IsOpen nr i w free) (s : Suffix i w 0 ds) where
    -- A write into the directory at the place of an entry leaves the directory open, with the
    -- entry in the place.
    module _ {name : Text} {d : Dirent} (valid : IsDirent d) (r : Place name d 0 ds) {j : Inode}
        {v : World p.Dev}
        (t : Written i w free (length (encode_all r.before)) (encode_dirent d) 0 j v)
        (small : length (encode_all r.before) + length (encode_dirent d) ≤ max_size) where
      abbrev pub reopened : World p.Dev
      reopened = hash_replace j v

      abbrev start : ℕ
      start = length (encode_all r.before)

      abbrev size : ℕ
      size = length (encode_dirent d)

      old_bytes : encode_all ds ≡ encode_all r.before ++ (encode_all r.old ++ encode_all r.after)
      old_bytes =
          ap encode_all r.whole
          ∙ encode_all-append r.before (r.old ++ r.after)
          ∙ ap (λ b. encode_all r.before ++ b) (encode_all-append r.old r.after)

      new_bytes :
          encode_all (insert d ds) ≡ encode_all r.before ++ (encode_dirent d ++ encode_all r.after)
      new_bytes = ap encode_all r.result ∙ encode_all-append r.before (d ∷ r.after)

      old_total : start + (length (encode_all r.old) + length (encode_all r.after)) ≡ i.din.i_size
      old_total = omega (
        arith,
        s.ends,
        ap length old_bytes,
        length-append (encode_all r.before) (encode_all r.old ++ encode_all r.after),
        length-append (encode_all r.old) (encode_all r.after),
      )

      new_total : start + (size + length (encode_all r.after)) ≡ j.din.i_size
      new_total = elim r.fits [
        | inl e ↦ omega (
          arith,
          old_total,
          e,
          t.size,
          (max_small i.din.i_size (start + size) (omega (arith, o.fits)) (omega arith)).0
              (omega (arith, old_total, e)),
        )
        | inr (e, z) ↦ omega (
          arith,
          old_total,
          e,
          z,
          t.size,
          (max_small i.din.i_size (start + size) (omega (arith, o.fits)) (omega arith)).1
              (omega (arith, old_total, e, z)),
        )
      ]

      new_length :
          length (encode_all r.before ++ (encode_dirent d ++ encode_all r.after)) ≡ j.din.i_size
      new_length = omega (
        arith,
        new_total,
        length-append (encode_all r.before) (encode_dirent d ++ encode_all r.after),
        length-append (encode_dirent d) (encode_all r.after),
      )

      -- A byte outside the written range.
      kept_byte :
          (x : ℕ)
          → x < i.din.i_size
          → (x < start) ⊎ (start + size ≤ x)
          → byte_at j reopened x
            ≡ get_or (encode_all r.before ++ (encode_all r.old ++ encode_all r.after)) x 0
      kept_byte x inside out =
          byte_at-table j j v x
          ∙ t.outside x (omega (arith, o.fits)) (shift out) (o.blocks x inside)
          ∙ ap (byte_at i w) (plus_zero x)
          ∙ sym (s.holds x (omega (arith, s.ends)))
          ∙ ap (λ b. get_or b x 0) old_bytes
        where
          plus_zero : (n : ℕ) → n ≡ 0 + n
          plus_zero n = omega arith

          shift : (x < start) ⊎ (start + size ≤ x) → (x < start + 0) ⊎ (start + size ≤ x)
          shift (inl l) = inl (omega arith)
          shift (inr g) = inr g

      reopened-Holds :
          Holds j reopened 0 (encode_all r.before ++ (encode_dirent d ++ encode_all r.after))
      reopened-Holds x l = elim (dec_lt x start) [
        | yes front ↦
            get_or-append_left (encode_all r.before) (encode_dirent d ++ encode_all r.after) x 0
              front
            ∙ sym (
                get_or-append_left (encode_all r.before) (encode_all r.old ++ encode_all r.after) x
                  0 front)
            ∙ sym (kept_byte x (omega (arith, old_total)) (inl front))
            ∙ ap (byte_at j reopened) (plus_zero x)
        | no far ↦ elim (dec_lt x (start + size)) [
          | yes inside ↦
              get_or-append_right (encode_all r.before) (encode_dirent d ++ encode_all r.after) x 0
                (omega arith)
              ∙ get_or-append_left (encode_dirent d) (encode_all r.after) (x - start) 0
                  (omega arith)
              ∙ sym (t.inside x (omega arith) inside).1
              ∙ sym (byte_at-table j j v x)
              ∙ ap (byte_at j reopened) (plus_zero x)
          | no past ↦ elim r.fits [
            | inl same ↦
                get_or-append_right (encode_all r.before) (encode_dirent d ++ encode_all r.after) x
                  0 (omega arith)
                ∙ get_or-append_right (encode_dirent d) (encode_all r.after) (x - start) 0
                    (omega arith)
                ∙ ap (λ n. get_or (encode_all r.after) (x - start - n) 0) (sym same)
                ∙ sym (
                    get_or-append_right (encode_all r.before)
                      (encode_all r.old ++ encode_all r.after) x 0 (omega arith)
                    ∙ get_or-append_right (encode_all r.old) (encode_all r.after) (x - start) 0
                        (omega (arith, same)))
                ∙ sym (
                    kept_byte x (omega (arith, old_total, new_total, new_length, same))
                      (inr (omega arith)))
                ∙ ap (byte_at j reopened) (plus_zero x)
            | inr (none_there, nothing) ↦ absurd (omega (arith, new_total, new_length, nothing))
          ]
        ]
      ]
        where
          plus_zero : (n : ℕ) → n ≡ 0 + n
          plus_zero n = omega arith

      pub reopened-IsOpen : IsOpen nr j reopened t.map
      reopened-IsOpen = record {
        found = hash_find_self nr j w v t.table (t.same_file.0 ∙ o.number) o.found;
        number = t.same_file.0 ∙ o.number;
        type = t.same_file.1 ∙ o.type;
        mapped = IsMapped-table j t.mapped;
        fits = elim r.fits [
          | inl same ↦ omega (arith, old_total, new_total, same, o.fits)
          | inr (none_there, nothing) ↦ omega (arith, new_total, nothing)
        ];
        blocks = λ q h z. elim (dec_lt q start) [
          | yes front ↦ kept_block q (omega (arith, old_total)) z
          | no far ↦ elim (dec_lt q (start + size)) [
            | yes inside ↦
                (t.inside q (omega arith) inside).0 (sym (phys-table j j v (q / 512)) ∙ z)
            | no past ↦ elim r.fits [
              | inl same ↦ kept_block q (omega (arith, old_total, new_total, same)) z
              | inr (none_there, nothing) ↦ absurd (omega (arith, new_total, nothing))
            ]
          ]
        ];
      }
        where
          kept_block : (q : ℕ) → q < i.din.i_size → phys j reopened (q / 512) ≢ 0
          kept_block q h z = o.blocks q h (
              sym (t.stays (q / 512) (omega (arith, o.fits)) (o.blocks q h))
              ∙ sym (phys-table j j v (q / 512))
              ∙ z)

      pub reopened-Suffix : Suffix j reopened 0 (insert d ds)
      reopened-Suffix = record {
        holds = subst (Holds j reopened 0) (sym new_bytes) reopened-Holds;
        ends = omega (arith, ap length new_bytes, new_length);
        valid =
            subst AllDirents (sym r.result) (
              AllDirents-replace r.before r.old r.after d (subst AllDirents r.whole s.valid) valid);
      }
