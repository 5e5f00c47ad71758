-- ===== src/Dir/Insert.antt =====
-- Adding an entry to the list of the entries of a directory, as `testfs_add_dirent` of src/dir.c
-- does: over the first free entry of its length, or at the end.
use test_fs.Prelude.{
  ℕ, ◌+◌, ◌≡◌, ◌≢◌, refl, sym, ◌∙◌, ap, ◌⊎◌, inl, inr, Bool, true, false, List, [], ◌∷◌, ◌++◌,
  arith, length, length-append, append_assoc, ◌&&◌, ◌==◌, ==_iff, if◌then◌else◌,
}
use test_fs.Bytes.{is_neg}
use test_fs.Dir.{Text, Dirent, encode_dirent, taken, reuse, at_end}
use test_fs.Dir.Entries.{IsDirent, AllDirents, encode_all, length-encode_dirent}
use test_fs.Dir.Lookup.{is_named, spot}

-- The entry is free and has the length of `d`.
abbrev pub is_room : Dirent → Dirent → Bool
is_room d e = is_neg e.d_inode_nr && (e.d_name_len == d.d_name_len)

unfoldable pub insert : Dirent → List Dirent → List Dirent
insert d [] = d ∷ []
insert d (e ∷ es) = if is_room d e then d ∷ es else e ∷ insert d es

pub encode_all-append :
    (xs ys : List Dirent) → encode_all (xs ++ ys) ≡ encode_all xs ++ encode_all ys
encode_all-append [] ys = refl
encode_all-append (x ∷ xs) ys =
    ap (λ b. encode_dirent x ++ b) (encode_all-append xs ys)
    ∙ sym (append_assoc (encode_dirent x) (encode_all xs) (encode_all ys))

-- The place of `d` in `ds`, which begins at `offset`: behind `before`, over `old`.
pub record Place (name : Text) (d : Dirent) (offset : ℕ) (ds : List Dirent) : Type 0 where
  pub before : List Dirent
  pub old : List Dirent
  pub after : List Dirent
  pub whole : ds ≡ before ++ (old ++ after)
  pub result : insert d ds ≡ before ++ (d ∷ after)
  pub fits :
      (length (encode_all old) ≡ length (encode_dirent d))
      ⊎ ((length (encode_all old) ≡ 0) × (length (encode_all after) ≡ 0))
  pub at :
      (spot name d.d_name_len offset ds ≡ reuse (offset + length (encode_all before)))
      ⊎ ((spot name d.d_name_len offset ds ≡ at_end (offset + length (encode_all before)))
          × (length (encode_all before) ≡ length (encode_all ds)))

module _ (name : Text) (d : Dirent) (valid : IsDirent d) where
  first-Place :
      (offset : ℕ) (e : Dirent) (es : List Dirent)
      → IsDirent e
      → is_named name e ≡ false
      → is_room d e ≡ true
      → Place name d offset (e ∷ es)
  unfolding spot insert
  first-Place offset e es v named room = record {
    before = [];
    old = e ∷ [];
    after = es;
    whole = refl;
    result = rw room refl;
    fits = inl same;
    at = inl (rw (named, room) (ap reuse (plus_zero offset)));
  }
    where
      plus_zero : (n : ℕ) → n ≡ n + 0
      plus_zero n = omega arith

      lengths : (a b : Bool) → (a && b) ≡ true → b ≡ true
      lengths true b h = h
      lengths false b h = absurd (cc h)

      same : length (encode_dirent e ++ []) ≡ length (encode_dirent d)
      same = omega (
        arith,
        length-append (encode_dirent e) [],
        length-encode_dirent e,
        length-encode_dirent d,
        v.len,
        valid.len,
        (==_iff e.d_name_len d.d_name_len).0
            (lengths (is_neg e.d_inode_nr) (e.d_name_len == d.d_name_len) room),
      )

  next-Place :
      (offset : ℕ) (e : Dirent) (es : List Dirent)
      → is_named name e ≡ false
      → is_room d e ≡ false
      → Place name d (offset + 8 + length e.d_name) es
      → Place name d offset (e ∷ es)
  unfolding spot insert
  next-Place offset e es named room r = record {
    before = e ∷ r.before;
    old = r.old;
    after = r.after;
    whole = ap (◌∷◌ e) r.whole;
    result = rw room (ap (◌∷◌ e) r.result);
    fits = r.fits;
    at = elim r.at [
      | inl h ↦ inl (rw (named, room) (h ∙ ap reuse shift))
      | inr (h, l) ↦ inr (rw (named, room) (h ∙ ap at_end shift), total l)
    ];
  }
    where
      shift :
          offset + 8 + length e.d_name + length (encode_all r.before)
          ≡ offset + length (encode_dirent e ++ encode_all r.before)
      shift =
          omega
            (arith, length-append (encode_dirent e) (encode_all r.before), length-encode_dirent e)

      total :
          length (encode_all r.before) ≡ length (encode_all es)
          → length (encode_dirent e ++ encode_all r.before)
            ≡ length (encode_dirent e ++ encode_all es)
      total l = omega (
        arith,
        length-append (encode_dirent e) (encode_all r.before),
        length-append (encode_dirent e) (encode_all es),
      )

  pub spot-Place :
      (offset : ℕ) (ds : List Dirent)
      → AllDirents ds
      → spot name d.d_name_len offset ds ≢ taken
      → Place name d offset ds
  spot-Place offset [] vs free = record {
    before = [];
    old = [];
    after = [];
    whole = refl;
    result = unfold insert in refl;
    fits = inr (refl, refl);
    at = inr (ends offset, refl);
  }
    where
      ends : (n : ℕ) → spot name d.d_name_len n [] ≡ at_end (n + 0)
      ends n = unfold spot in ap at_end (omega arith)
  spot-Place offset (e ∷ es) vs free =
      decide (is_named name e) (is_room d e) refl refl
        (spot-Place (offset + 8 + length e.d_name) es vs.1)
    where
      named_taken : is_named name e ≡ true → spot name d.d_name_len offset (e ∷ es) ≡ taken
      named_taken h = unfold spot in rw h refl

      past :
          is_named name e ≡ false
          → is_room d e ≡ false
          → spot name d.d_name_len (offset + 8 + length e.d_name) es
            ≡ spot name d.d_name_len offset (e ∷ es)
      past named room = unfold spot in rw (named, room) refl

      decide :
          (a b : Bool)
          → is_named name e ≡ a
          → is_room d e ≡ b
          → (spot name d.d_name_len (offset + 8 + length e.d_name) es ≢ taken
              → Place name d (offset + 8 + length e.d_name) es)
          → Place name d offset (e ∷ es)
      decide true b ea eb rest = absurd (free (named_taken ea))
      decide false true ea eb rest = first-Place offset e es vs.0 ea eb
      decide false false ea eb rest =
          next-Place offset e es ea eb (rest (λ z. free (sym (past ea eb) ∙ z)))
