-- ===== src/Dir/Found.antt =====
-- What a lookup finds in the list of the entries of a directory once an entry is added.
use test_fs.Prelude.{
  ℕ, ◌+◌, ◌≡◌, ◌≢◌, refl, sym, ◌∙◌, ap, ap₂, Bool, true, false, List, [], ◌∷◌, ◌++◌, length, ◌&&◌,
  not, ◌==◌, eq→==, ne→==, if◌then◌else◌,
}
use native.Mathlib.Decide.{ℕ_discrete}
use test_fs.Bytes.{is_neg}
use test_fs.Dir.{Text, Dirent, taken}
use test_fs.Dir.Show.{c_string, text_eq}
use test_fs.Dir.Lookup.{IsText, is_named, lookup, spot}
use test_fs.Dir.Insert.{is_room, insert}

-- The entry has the name, when its name is the text with a NUL behind it.
text_eq-c_string : (name : Text) → IsText name → text_eq (c_string (name ++ 0 ∷ [])) name ≡ true
unfolding text_eq c_string
text_eq-c_string [] t = refl
text_eq-c_string (x ∷ xs) t = rw (ne→== x 0 t.0, eq→== x x refl, text_eq-c_string xs t.1) refl

pub is_named_self :
    (name : Text) (len nr : ℕ)
    → IsText name
    → is_neg nr ≡ false
    → is_named name (record { d_name_len = len; d_inode_nr = nr; d_name = name ++ 0 ∷ [] }) ≡ true
unfolding is_named
is_named_self name len nr t h = rw (h, text_eq-c_string name t) refl

-- A lookup of the name finds the entry that was added, unless it was taken.
pub lookup-insert :
    (name : Text) (d : Dirent) (offset : ℕ) (ds : List Dirent)
    → is_named name d ≡ true
    → spot name d.d_name_len offset ds ≢ taken
    → lookup name (insert d ds) ≡ d.d_inode_nr
unfolding lookup insert spot
lookup-insert name d offset [] h free = rw h refl
lookup-insert name d offset (e ∷ es) h free =
    decide (is_named name e) (is_room d e) refl refl
      (lookup-insert name d (offset + 8 + length e.d_name) es h)
  where
    decide :
        (a b : Bool)
        → is_named name e ≡ a
        → is_room d e ≡ b
        → (spot name d.d_name_len (offset + 8 + length e.d_name) es ≢ taken
            → lookup name (insert d es) ≡ d.d_inode_nr)
        → lookup name (if is_room d e then d ∷ es else e ∷ insert d es) ≡ d.d_inode_nr
    decide true b ea eb rest = absurd (free (rw ea refl))
    decide false true ea eb rest = rw (eb, h) refl
    decide false false ea eb rest = rw (eb, ea) (rest (λ z. free (rw (ea, eb) z)))

-- A lookup of any other name is as before.
pub lookup-insert_other :
    (name : Text) (d : Dirent) (ds : List Dirent)
    → is_named name d ≡ false
    → lookup name (insert d ds) ≡ lookup name ds
unfolding lookup insert is_named
lookup-insert_other name d [] h = rw h refl
lookup-insert_other name d (e ∷ es) h =
    decide (is_neg e.d_inode_nr) (e.d_name_len == d.d_name_len) refl refl
      (lookup-insert_other name d es h)
  where
    decide :
        (a b : Bool)
        → is_neg e.d_inode_nr ≡ a
        → (e.d_name_len == d.d_name_len) ≡ b
        → lookup name (insert d es) ≡ lookup name es
        → lookup name (if is_room d e then d ∷ es else e ∷ insert d es)
          ≡ (if is_named name e then e.d_inode_nr else lookup name es)
    decide true true ea eb rest =
        let room : is_room d e ≡ true = rw (ea, eb) refl in
        let free : is_named name e ≡ false = rw ea refl in rw (room, h, free) refl
    decide true false ea eb rest =
        let no_room : is_room d e ≡ false = rw (ea, eb) refl in
        rw no_room (ap (λ r. if is_named name e then e.d_inode_nr else r) rest)
    decide false b ea eb rest =
        let no_room : is_room d e ≡ false = rw ea refl in
        rw no_room (ap (λ r. if is_named name e then e.d_inode_nr else r) rest)

c_string_text : (name : Text) → IsText name → c_string (name ++ 0 ∷ []) ≡ name
unfolding c_string
c_string_text [] t = refl
c_string_text (x ∷ xs) t = rw (ne→== x 0 t.0) (ap (◌∷◌ x) (c_string_text xs t.1))

text_eq_sound : (xs ys : Text) → text_eq xs ys ≡ true → xs ≡ ys
unfolding text_eq
text_eq_sound [] [] h = refl
text_eq_sound [] (y ∷ ys) h = absurd (cc h)
text_eq_sound (x ∷ xs) [] h = absurd (cc h)
text_eq_sound (x ∷ xs) (y ∷ ys) h = elim (ℕ_discrete x y) [
  | yes e ↦ ap₂ ◌∷◌ e (text_eq_sound xs ys (rw (eq→== x y e) at h))
  | no ne ↦ absurd (cc (rw (ne→== x y ne) at h))
]

pub is_named_other :
    (name other : Text) (len nr : ℕ)
    → IsText name
    → other ≢ name
    → is_named other (record { d_name_len = len; d_inode_nr = nr; d_name = name ++ 0 ∷ [] }) ≡ false
unfolding is_named
is_named_other name other len nr t ne =
    decide (is_neg nr) (text_eq (c_string (name ++ 0 ∷ [])) other) refl
  where
    decide : (a b : Bool) → text_eq (c_string (name ++ 0 ∷ [])) other ≡ b → (not a && b) ≡ false
    decide true b h = refl
    decide false false h = refl
    decide false true h =
        absurd (
          ne (sym (sym (c_string_text name t) ∙ text_eq_sound (c_string (name ++ 0 ∷ [])) other h)))
