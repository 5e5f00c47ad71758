-- ===== src/Shell/Words.antt =====
-- The splitting of a line in `handle_command` of src/testfs.c: the words that it finds.
use test_fs.Prelude.{
  ℕ, zero, suc, ◌+◌, ◌-◌, ◌≤◌, ◌<◌, ◌≡◌, ◌⊎◌, inl, inr, refl, sym, ap, subst, Bool, true, false,
  Option, none, some, List, [], ◌∷◌, ◌++◌, arith, length,
}
use test_fs.Dir.{Text}
use test_fs.Shell.{is_blank, is_newline, skip, span, strtok, split_args, parse_args}

-- No byte of the text is a delimiter.
abbrev pub IsClear : (ℕ → Bool) → Text → Type 0
IsClear delimiter [] = Unit {0}
IsClear delimiter (c ∷ s) = (delimiter c ≡ false) × IsClear delimiter s

-- A word is not empty and has no blank.
abbrev pub IsWord : Text → Type 0
IsWord t = (0 < length t) × IsClear is_blank t

abbrev pub AllWords : List Text → Type 0
AllWords [] = Unit {0}
AllWords (t ∷ ts) = IsWord t × AllWords ts

-- Words with a space between two of them.
unfoldable pub unwords : List Text → Text
unwords [] = []
unwords (t ∷ []) = t
unwords (t ∷ u ∷ ts) = t ++ (32 ∷ unwords (u ∷ ts))

is_newline-IsClear : (t : Text) → IsClear is_blank t → IsClear is_newline t
is_newline-IsClear [] h = tt
is_newline-IsClear (c ∷ s) h = (ground (arith, h.0), is_newline-IsClear s h.1)

span-IsClear : (delimiter : ℕ → Bool) (t : Text) → IsClear delimiter t → span delimiter t ≡ (t, [])
unfolding span
span-IsClear delimiter [] h = refl
span-IsClear delimiter (c ∷ s) h = rw (h.0, span-IsClear delimiter s h.1)

span-append :
    (delimiter : ℕ → Bool) (t rest : Text) (c : ℕ)
    → IsClear delimiter t
    → delimiter c ≡ true
    → span delimiter (t ++ c ∷ rest) ≡ (t, rest)
unfolding span
span-append delimiter [] rest c h d = rw d
span-append delimiter (x ∷ s) rest c h d = rw (h.0, span-append delimiter s rest c h.1 d)

skip-IsClear :
    (delimiter : ℕ → Bool) (c : ℕ) (s : Text) → delimiter c ≡ false → skip delimiter (c ∷ s) ≡ c ∷ s
unfolding skip
skip-IsClear delimiter c s h = rw h

strtok-IsClear :
    (delimiter : ℕ → Bool) (t : Text)
    → 0 < length t
    → IsClear delimiter t
    → strtok delimiter t ≡ (some t, [])
unfolding strtok
strtok-IsClear delimiter [] l h = absurd (omega arith)
strtok-IsClear delimiter (c ∷ s) l h =
    rw (skip-IsClear delimiter c s h.0, strtok, span-IsClear delimiter (c ∷ s) h)

strtok-append : (t rest : Text) → IsWord t → strtok is_blank (t ++ 32 ∷ rest) ≡ (some t, rest)
unfolding strtok
strtok-append [] rest (l, h) = absurd (omega arith)
strtok-append (c ∷ s) rest (l, h) = rw (
  skip-IsClear is_blank c (s ++ 32 ∷ rest) h.0,
  strtok,
  span-append is_blank (c ∷ s) rest 32 h refl,
)

split_args-nil : (rounds : ℕ) → split_args rounds [] ≡ ([], [])
unfolding split_args strtok skip
split_args-nil zero = refl
split_args-nil (suc rounds) = refl

-- What the loop of `handle_command` makes of one call of `strtok`.
abbrev pub found_one : (rounds : ℕ) → Option Text × Text → List Text × Text
found_one rounds r = elim r.0 [
  | none ↦ ([], [])
  | some t ↦ (t ∷ (split_args rounds r.1).0, (split_args rounds r.1).1)
]

split_args-suc :
    (rounds : ℕ) (s : Text) {r : Option Text × Text}
    → strtok is_blank s ≡ r
    → split_args (suc rounds) s ≡ found_one rounds r
unfolding split_args
split_args-suc rounds s h = ap (found_one rounds) h

-- All words are found, or all but the last, which is what is left.
abbrev Splits : List Text → List Text × Text → Type 0
Splits args (found, after) =
    ((found ≡ args) × (after ≡ []))
    ⊎ ((t : Text) × (found ++ t ∷ [] ≡ args) × (after ≡ t) × IsWord t)

Splits-cons :
    (t : Text) (args : List Text) (r : List Text × Text)
    → Splits args r
    → Splits (t ∷ args) (t ∷ r.0, r.1)
Splits-cons t args r (inl (e, z)) = inl (ap (◌∷◌ t) e, z)
Splits-cons t args r (inr (u, e, z, h)) = inr (u, ap (◌∷◌ t) e, z, h)

split_args-unwords :
    (rounds : ℕ) (args : List Text)
    → AllWords args
    → length args ≤ rounds + 1
    → Splits args (split_args rounds (unwords args))
unfolding unwords split_args
split_args-unwords zero [] ws l = inl (refl, refl)
split_args-unwords zero (t ∷ []) ws l = inr (t, refl, refl, ws.0)
split_args-unwords zero (t ∷ u ∷ ts) ws l = absurd (omega arith)
split_args-unwords (suc rounds) [] ws l =
    subst (Splits []) (sym (split_args-nil (suc rounds))) (inl (refl, refl))
split_args-unwords (suc rounds) (t ∷ []) ws l =
    subst (Splits (t ∷ []))
      (sym (split_args-suc rounds t (strtok-IsClear is_blank t ws.0.0 ws.0.1)))
      (inl (ap (λ r. t ∷ r.0) (split_args-nil rounds), ap (λ r. r.1) (split_args-nil rounds)))
split_args-unwords (suc rounds) (t ∷ u ∷ ts) ws l =
    subst (Splits (t ∷ u ∷ ts))
      (sym (
        split_args-suc rounds (t ++ 32 ∷ unwords (u ∷ ts))
          (strtok-append t (unwords (u ∷ ts)) ws.0)))
      (Splits-cons t (u ∷ ts) (split_args rounds (unwords (u ∷ ts)))
        (split_args-unwords rounds (u ∷ ts) ws.1 (omega arith)))

-- What is found, with what is left as the last word.
abbrev pub joined : List Text → Option Text → List Text
joined found token = elim token [ none ↦ found | some t ↦ found ++ t ∷ [] ]

joined-Splits :
    (args : List Text) (r : List Text × Text)
    → Splits args r
    → joined r.0 (strtok is_newline (elim r.0 [ [] ↦ unwords args | _ ∷ _ ↦ r.1 ])).0 ≡ args
unfolding unwords strtok skip
joined-Splits args ([], after) (inl (e, z)) = rw (sym e) refl
joined-Splits args (f ∷ found, after) (inl (e, z)) = rw z e
joined-Splits args ([], after) (inr (t, e, z, h)) =
    rw (sym e, strtok-IsClear is_newline t h.0 (is_newline-IsClear t h.1)) refl
joined-Splits args (f ∷ found, after) (inr (t, e, z, h)) =
    rw (z, strtok-IsClear is_newline t h.0 (is_newline-IsClear t h.1)) e

-- A command with room for `max` arguments, at least one, gets words that are separated by a space
-- as its arguments, if there are at most `max`.
pub parse_args-unwords :
    (max : ℕ) (args : List Text)
    → 0 < max
    → AllWords args
    → length args ≤ max
    → parse_args max (unwords args) ≡ args
unfolding parse_args
parse_args-unwords max args some_room ws l =
    joined-Splits args (split_args (max - 1) (unwords args))
      (split_args-unwords (max - 1) args ws (omega arith))
