-- ===== src/Shell/Bounds.antt =====
-- The number of arguments that `handle_command` of src/testfs.c finds, against the array that holds
-- them.
use test_fs.Prelude.{
  ℕ, zero, suc, ◌+◌, ◌-◌, ◌≤◌, ◌<◌, ◌≡◌, subst, Bool, true, false, Option, none, some, List, [],
  ◌∷◌, arith, length, length-append, if◌then◌else◌,
}
use test_fs.Dir.{Text}
use test_fs.Shell.Words.{found_one, joined}
use test_fs.Dir.Show.{text_eq}
use test_fs.Shell.{
  is_blank, is_newline, strtok, split_args, parse_args, max_args, Entry, cmdtable, find_entry,
}

length-split_args : (rounds : ℕ) (s : Text) → length (split_args rounds s).0 ≤ rounds
unfolding split_args
length-split_args zero s = omega arith
length-split_args (suc rounds) s =
    found (strtok is_blank s) (length-split_args rounds (strtok is_blank s).1)
  where
    found :
        (r : Option Text × Text)
        → length (split_args rounds r.1).0 ≤ rounds
        → length (found_one rounds r).0 ≤ suc rounds
    found (none, after) h = omega arith
    found (some t, after) h = omega arith

abbrev AllBounded : ℕ → List Entry → Type 0
AllBounded m [] = Unit {0}
AllBounded m (e ∷ es) = ((0 < e.max_args) × (e.max_args ≤ m)) × AllBounded m es

cmdtable-AllBounded : AllBounded max_args cmdtable
cmdtable-AllBounded = (
  (omega arith, omega arith),
  (
    (omega arith, omega arith),
    (
      (omega arith, omega arith),
      (
        (omega arith, omega arith),
        (
          (omega arith, omega arith),
          (
            (omega arith, omega arith),
            (
              (omega arith, omega arith),
              (
                (omega arith, omega arith),
                (
                  (omega arith, omega arith),
                  (
                    (omega arith, omega arith),
                    (
                      (omega arith, omega arith),
                      (
                        (omega arith, omega arith),
                        (
                          (omega arith, omega arith),
                          (
                            (omega arith, omega arith),
                            (
                              (omega arith, omega arith),
                              (
                                (omega arith, omega arith),
                                (
                                  (omega arith, omega arith),
                                  (
                                    (omega arith, omega arith),
                                    ((omega arith, omega arith), ((omega arith, omega arith), tt)),
                                  ),
                                ),
                              ),
                            ),
                          ),
                        ),
                      ),
                    ),
                  ),
                ),
              ),
            ),
          ),
        ),
      ),
    ),
  ),
)

find_entry-bound :
    (name : Text) (es : List Entry) (m : ℕ) {e : Entry}
    → AllBounded m es
    → find_entry name es ≡ some e
    → (0 < e.max_args) × (e.max_args ≤ m)
unfolding find_entry
find_entry-bound name [] m bs h = absurd (cc h)
find_entry-bound name (x ∷ es) m {e} bs h =
    decide (text_eq name x.name) (find_entry-bound name es m bs.1) h
  where
    decide :
        (b : Bool)
        → (find_entry name es ≡ some e → (0 < e.max_args) × (e.max_args ≤ m))
        → (if b then some x else find_entry name es) ≡ some e
        → (0 < e.max_args) × (e.max_args ≤ m)
    decide true later h =
        let same : x ≡ e = cc h in
        subst (λ (y : Entry). (0 < y.max_args) × (y.max_args ≤ m)) same bs.0
    decide false later h = later h

length-parse_args : (max : ℕ) (s : Text) → 0 < max → length (parse_args max s) ≤ max
unfolding parse_args
length-parse_args max s some_room =
    last
      (strtok is_newline
        (elim (split_args (max - 1) s).0 [ [] ↦ s | _ ∷ _ ↦ (split_args (max - 1) s).1 ])).0
  where
    last : (token : Option Text) → length (joined (split_args (max - 1) s).0 token) ≤ max
    last none = omega (arith, length-split_args (max - 1) s)
    last (some t) =
        omega
          (arith, length-split_args (max - 1) s, length-append (split_args (max - 1) s).0 (t ∷ []))

-- Whatever the line is, the name and the arguments of a command in the table fit the array
-- `c->cmd`, which has MAX_ARGS + 1 elements.
pub parse_args-bound :
    (name s : Text) {e : Entry}
    → find_entry name cmdtable ≡ some e
    → length (name ∷ parse_args e.max_args s) ≤ max_args + 1
parse_args-bound name s {e} h =
    let (some_room, small) = find_entry-bound name cmdtable max_args cmdtable-AllBounded h in
    omega (arith, length-parse_args e.max_args s some_room)
