-- ===== src/Block/Laws.antt =====
-- What a transfer does to the blocks of the device.
use test_fs.Prelude.{
  ℕ, zero, suc, ◌+◌, ◌*◌, ◌≤◌, ◌<◌, ◌≡◌, refl, sym, ◌∙◌, ap, ap₂, ◌⊎◌, inl, inr, List, [], ◌∷◌,
  ◌++◌, arith, length, take, drop, length-append, length-take, length-drop, take-append-drop,
}
use native.Mathlib.Decide.{ℕ_discrete}
use test_fs.Bytes.{Byte, zero_bytes}
use test_fs.Bytes.Laws.{length-zero_bytes}
use test_fs.Platform.{Platform}
use test_fs.World.{World, done}
use test_fs.Block.{read_blocks, write_blocks, zero_blocks}

module _ ⦃p : Platform⦄ where
  -- Block `n` of the device.
  abbrev pub block_at : World p.Dev → ℕ → List Byte
  block_at w n = p.read w.dev n 1

  pub length-block_at : (w : World p.Dev) (n : ℕ) → length (block_at w n) ≡ 512
  length-block_at w n = p.length-read w.dev n

  length-read_lem : (d : p.Dev) (start nr : ℕ) → length (p.read d start nr) ≡ nr * 512
  length-read_lem d start zero = ap length (p.read-zero d start)
  length-read_lem d start (suc nr) = omega (
    arith,
    ap length (p.read-suc d start nr),
    length-append (p.read d start 1) (p.read d (start + 1) nr),
    p.length-read d start,
    length-read_lem d (start + 1) nr,
  )

  -- A write of `nr` blocks leaves every block outside its range.
  pub read-write_outside :
      (d : p.Dev) (start nr : ℕ) (b : List Byte) (n : ℕ)
      → (n < start) ⊎ (start + nr ≤ n)
      → p.read (p.write d start nr b) n 1 ≡ p.read d n 1
  read-write_outside d start zero b n out = ap (λ e. p.read e n 1) (p.write-zero d start b)
  read-write_outside d start (suc nr) b n out =
      ap (λ e. p.read e n 1) (p.write-suc d start nr b)
      ∙ read-write_outside (p.write d start 1 (take 512 b)) (start + 1) nr (drop 512 b) n
          (later out)
      ∙ p.read-write_other d start n (take 512 b) (omega arith)
    where
      later : (n < start) ⊎ (start + suc nr ≤ n) → (n < start + 1) ⊎ (start + 1 + nr ≤ n)
      later (inl l) = inl (omega arith)
      later (inr g) = inr (omega arith)

  -- What is written over `nr` blocks is read back.
  pub read-write_blocks :
      (d : p.Dev) (start nr : ℕ) (b : List Byte)
      → length b ≡ nr * 512
      → p.read (p.write d start nr b) start nr ≡ b
  read-write_blocks d start zero b size = p.read-zero _ start ∙ sym (nil b size)
    where
      nil : (b : List Byte) → length b ≡ 0 * 512 → b ≡ []
      nil [] size = refl
      nil (x ∷ b) size = absurd (omega arith)
  read-write_blocks d start (suc nr) b size =
      p.read-suc (p.write d start (suc nr) b) start nr
      ∙ ap₂ ◌++◌
          (ap (λ e. p.read e start 1) (p.write-suc d start nr b)
            ∙ read-write_outside first (start + 1) nr (drop 512 b) start (inl (omega arith))
            ∙ p.read-write_self d start (take 512 b) (omega (arith, length-take 512 b)))
          (ap (λ e. p.read e (start + 1) nr) (p.write-suc d start nr b)
            ∙ read-write_blocks first (start + 1) nr (drop 512 b)
                (omega (arith, length-drop 512 b)))
      ∙ take-append-drop 512 b
    where
      first : p.Dev
      first = p.write d start 1 (take 512 b)

  -- `read_blocks` after `write_blocks` of the same blocks gives back the buffer.
  pub read_blocks-write_blocks :
      (w : World p.Dev) (start nr : ℕ) (b : List Byte)
      → length b ≡ nr * 512
      → (v : World p.Dev) × (write_blocks b start nr w ≡ done tt v)
        × (read_blocks start nr v ≡ done b v)
  unfolding read_blocks write_blocks
  read_blocks-write_blocks w start nr b size = (
    record w { dev = p.write w.dev start nr b },
    refl,
    ap (λ c. done c (record w { dev = p.write w.dev start nr b }))
        (read-write_blocks w.dev start nr b size),
  )

  -- The blocks from `start` to `start + nr` are zero, and the others as before; nothing but the
  -- device changes.
  pub record Zeroed (w : World p.Dev) (start nr : ℕ) (v : World p.Dev) : Type 0 where
    pub inside : (n : ℕ) → start ≤ n → n < start + nr → block_at v n ≡ zero_bytes 512
    pub outside : (n : ℕ) → (n < start) ⊎ (start + nr ≤ n) → block_at v n ≡ block_at w n
    pub rest : v ≡ record w { dev = v.dev }

  -- `zero_blocks` leaves its `nr` blocks zero, and all other blocks and the state as they were.
  pub zero_blocks-Zeroed :
      (w : World p.Dev) (start nr : ℕ)
      → (v : World p.Dev) × (zero_blocks start nr w ≡ done tt v) × Zeroed w start nr v
  unfolding zero_blocks
  zero_blocks-Zeroed w start zero = (
    w,
    refl,
    record { inside = λ n l u. absurd (omega arith); outside = λ n o. refl; rest = refl },
  )
  zero_blocks-Zeroed w start (suc nr) =
      let first = record w { dev = p.write w.dev start 1 (zero_bytes 512) } in
      let (v, run, z) = zero_blocks-Zeroed first (start + 1) nr in
      (
        v,
        run,
        record {
          inside = λ n l u. elim (ℕ_discrete start n) [
            | yes e ↦
                z.outside n (inl (omega arith))
                ∙ ap (λ k. p.read first.dev k 1) (sym e)
                ∙ p.read-write_self w.dev start (zero_bytes 512) (length-zero_bytes 512)
            | no ne ↦ z.inside n (omega arith) (omega arith)
          ];
          outside = λ n o.
              z.outside n (omega arith)
              ∙ p.read-write_other w.dev start n (zero_bytes 512) (omega arith);
          rest = z.rest;
        },
      )
