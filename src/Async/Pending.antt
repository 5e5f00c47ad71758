-- ===== src/Async/Pending.antt =====
-- Properties of the requests that are pending in src/async.c, when one of them completes.
use test_fs.Prelude.{◌⊎◌, inl, inr, List, [], ◌∷◌, ◌++◌}
use test_fs.Async.{Request}

-- A property of each request, and of one of them.
abbrev pub Each : (Request → Type 0) → List Request → Type 0
Each P [] = Unit {0}
Each P (r ∷ rs) = P r × Each P rs

abbrev pub Some : (Request → Type 0) → List Request → Type 0
Some P [] = ⊥
Some P (r ∷ rs) = P r ⊎ Some P rs

module _ (P : Request → Type 0) where
  pub Each-split :
      (before : List Request) (r : Request) (after : List Request)
      → Each P (before ++ r ∷ after)
      → P r × Each P (before ++ after)
  Each-split [] r after h = h
  Each-split (x ∷ before) r after (h, hs) =
      let (here, rest) = Each-split before r after hs in (here, (h, rest))

  pub Some-split :
      (before : List Request) (r : Request) (after : List Request)
      → Some P (before ++ r ∷ after)
      → P r ⊎ Some P (before ++ after)
  Some-split [] r after h = h
  Some-split (x ∷ before) r after (inl h) = inr (inl h)
  Some-split (x ∷ before) r after (inr hs) = elim (Some-split before r after hs) [
    | inl here ↦ inl here
    | inr rest ↦ inr (inr rest)
  ]

  pub Each-append_one : (rs : List Request) (r : Request) → Each P rs → P r → Each P (rs ++ r ∷ [])
  Each-append_one [] r hs h = (h, tt)
  Each-append_one (x ∷ rs) r (g, hs) h = (g, Each-append_one rs r hs h)

  pub Some-append_one : (rs : List Request) (r : Request) → Some P rs ⊎ P r → Some P (rs ++ r ∷ [])
  Some-append_one [] r (inl s) = absurd s
  Some-append_one [] r (inr h) = inl h
  Some-append_one (x ∷ rs) r (inl (inl g)) = inl g
  Some-append_one (x ∷ rs) r (inl (inr s)) = inr (Some-append_one rs r (inl s))
  Some-append_one (x ∷ rs) r (inr h) = inr (Some-append_one rs r (inr h))
