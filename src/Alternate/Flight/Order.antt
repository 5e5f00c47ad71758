-- ===== src/Alternate/Flight/Order.antt =====
-- The order in which the device takes the writes that are pending on a future.
use test_fs.Prelude.{ℕ, ◌≡◌, ◌≢◌, refl, sym, ◌∙◌, ap, ◌⊎◌, inl, inr, List, [], ◌∷◌, ◌++◌, length}
use native.Mathlib.Decide.{ℕ_discrete}
use test_fs.Bytes.{Byte}
use test_fs.Platform.{Platform}
use test_fs.World.{World, SuperBlock}
use test_fs.Block.Laws.{block_at}
use test_fs.Alternate.Flight.{Write, complete_all}

-- A property of each write, and of one of them.
abbrev pub Each : (Write → Type 0) → List Write → Type 0
Each P [] = Unit {0}
Each P (x ∷ xs) = P x × Each P xs

abbrev pub Some : (Write → Type 0) → List Write → Type 0
Some P [] = ⊥
Some P (x ∷ xs) = P x ⊎ Some P xs

-- The device takes each write that was sent, and no other.
abbrev pub TakesAll : (List Write → List Write) → Type 1
TakesAll order =
    (P : Write → Type 0) (xs : List Write)
    → (Each P xs → Each P (order xs)) × (Some P xs → Some P (order xs))

-- A write of one block, whose content is given by its number.
pub record IsWriteOf (content : ℕ → List Byte) (x : Write) : Type 0 where
  pub one : x.nr ≡ 1
  pub total : length x.blocks ≡ 512
  pub agrees : x.blocks ≡ content x.start

decide_at : (b : ℕ) (xs : List Write) → Some (λ x. x.start ≡ b) xs ⊎ Each (λ x. x.start ≢ b) xs
decide_at b [] = inr tt
decide_at b (x ∷ xs) = elim (ℕ_discrete x.start b) [
  | yes e ↦ inl (inl e)
  | no ne ↦ elim (decide_at b xs) [ inl s ↦ inl (inr s) | inr n ↦ inr (ne, n) ]
]

module _ ⦃p : Platform⦄ (content : ℕ → List Byte) where
  complete_all-miss :
      (b : ℕ) (xs : List Write) (w : World p.Dev)
      → Each (IsWriteOf content) xs
      → Each (λ x. x.start ≢ b) xs
      → block_at (complete_all xs w) b ≡ block_at w b
  unfolding complete_all
  complete_all-miss b [] w hs ns = refl
  complete_all-miss b (x ∷ xs) w (h, hs) (n, ns) =
      complete_all-miss b xs (record w { dev = p.write w.dev x.start x.nr x.blocks }) hs ns
      ∙ ap (λ k. p.read (p.write w.dev x.start k x.blocks) b 1) h.one
      ∙ p.read-write_other w.dev x.start b x.blocks n

  complete_all-hit :
      (b : ℕ) (xs : List Write) (w : World p.Dev)
      → Each (IsWriteOf content) xs
      → Some (λ x. x.start ≡ b) xs
      → block_at (complete_all xs w) b ≡ content b
  unfolding complete_all
  complete_all-hit b [] w hs s = absurd s
  complete_all-hit b (x ∷ xs) w (h, hs) s =
      let u : World p.Dev = record w { dev = p.write w.dev x.start x.nr x.blocks } in
      elim (decide_at b xs) [
        | inl later ↦ complete_all-hit b xs u hs later
        | inr never ↦ complete_all-miss b xs u hs never ∙ last s never
      ]
    where
      stored : x.start ≡ b → p.read (p.write w.dev x.start x.nr x.blocks) b 1 ≡ content b
      stored e =
          ap (λ k. p.read (p.write w.dev x.start k x.blocks) b 1) h.one
          ∙ ap (λ k. p.read (p.write w.dev x.start 1 x.blocks) k 1) (sym e)
          ∙ p.read-write_self w.dev x.start x.blocks h.total
          ∙ h.agrees
          ∙ ap content e

      none_left : (ys : List Write) → Each (λ y. y.start ≢ b) ys → Some (λ y. y.start ≡ b) ys → ⊥
      none_left [] n s = s
      none_left (y ∷ ys) (n, ns) (inl e) = n e
      none_left (y ∷ ys) (n, ns) (inr t) = none_left ys ns t

      last :
          Some (λ y. y.start ≡ b) (x ∷ xs)
          → Each (λ y. y.start ≢ b) xs
          → p.read (p.write w.dev x.start x.nr x.blocks) b 1 ≡ content b
      last (inl e) never = stored e
      last (inr t) never = absurd (none_left xs never t)

  -- Writes that agree on each block leave the same blocks in every order.
  pub complete_all-order :
      (order : List Write → List Write) (xs : List Write) (w : World p.Dev)
      → TakesAll order
      → Each (IsWriteOf content) xs
      → (b : ℕ) → block_at (complete_all (order xs) w) b ≡ block_at (complete_all xs w) b
  complete_all-order order xs w takes hs b =
      let ordered : Each (IsWriteOf content) (order xs) = (takes (IsWriteOf content) xs).0 hs in
      elim (decide_at b xs) [
        | inl s ↦
            complete_all-hit b (order xs) w ordered ((takes (λ x. x.start ≡ b) xs).1 s)
            ∙ sym (complete_all-hit b xs w hs s)
        | inr n ↦
            complete_all-miss b (order xs) w ordered ((takes (λ x. x.start ≢ b) xs).0 n)
            ∙ sym (complete_all-miss b xs w hs n)
      ]

module _ ⦃p : Platform⦄ where
  pub complete_all-append :
      (xs : List Write) (x : Write) (w : World p.Dev)
      → complete_all (xs ++ x ∷ []) w ≡ record (complete_all xs w) {
        dev = p.write ((complete_all xs w).dev) x.start x.nr x.blocks;
      }
  unfolding complete_all
  complete_all-append [] x w = refl
  complete_all-append (y ∷ xs) x w =
      complete_all-append xs x (record w { dev = p.write w.dev y.start y.nr y.blocks })

  -- Completions touch the device alone.
  pub complete_all-fs :
      (xs : List Write) (s : SuperBlock) (w : World p.Dev)
      → complete_all xs (record w { fs = s }) ≡ record (complete_all xs w) { fs = s }
  unfolding complete_all
  complete_all-fs [] s w = refl
  complete_all-fs (x ∷ xs) s w =
      complete_all-fs xs s (record w { dev = p.write w.dev x.start x.nr x.blocks })

  pub complete_all-keeps :
      (xs : List Write) (w : World p.Dev)
      → ((complete_all xs w).fs ≡ w.fs)
        × ((complete_all xs w).inode_hash_table ≡ w.inode_hash_table)
  unfolding complete_all
  complete_all-keeps [] w = (refl, refl)
  complete_all-keeps (x ∷ xs) w =
      complete_all-keeps xs (record w { dev = p.write w.dev x.start x.nr x.blocks })
