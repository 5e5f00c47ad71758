-- ===== src/Bench/Filling.antt =====
-- The blocks that the writes of src/bench_raw.c fill, while requests are in flight.
use native.Mathlib.Decide.{ℕ_discrete}
use test_fs.Prelude.{
  ℕ, zero, suc, ◌+◌, ◌≤◌, ◌<◌, ◌≡◌, ◌≢◌, refl, sym, ap, ◌∙◌, subst, ◌⊎◌, inl, inr, arith, ◌++◌,
  List, length,
}
use test_fs.Bytes.{Byte}
use test_fs.Platform.{Platform}
use test_fs.World.{World, done}
use test_fs.Block.{write_blocks}
use test_fs.Async.{
  Request, System, w_request, do_transfer, reactor_complete, Step, complete, Reach, here, later,
}
use test_fs.Async.Pending.{Each, Some, Each-split, Some-split}
use test_fs.Bench.Raw.{write_from}

module _ ⦃p : Platform⦄ where
  -- The blocks before `n` hold what `block` holds, and the others what they held before.
  pub record IsFilled (block : List Byte) (n : ℕ) (before after : p.Dev) : Type 0 where
    pub inside : (b : ℕ) → b < n → p.read after b 1 ≡ block
    pub outside : (b : ℕ) → n ≤ b → p.read after b 1 ≡ p.read before b 1

  -- The loop of the synchronous form, from block `i` on.
  pub write_from-run :
      (block : List Byte) (rounds i : ℕ) (w : World p.Dev)
      → length block ≡ 512
      → (d : p.Dev) × (write_from block rounds i w ≡ done tt (record w { dev = d }))
        × ((b : ℕ) → i ≤ b → b < i + rounds → p.read d b 1 ≡ block)
        × ((b : ℕ) → (b < i) ⊎ (i + rounds ≤ b) → p.read d b 1 ≡ p.read w.dev b 1)
  unfolding write_from write_blocks
  write_from-run block zero i w sized =
      (w.dev, refl, λ b low high. absurd (omega arith), λ b out. refl)
  write_from-run block (suc rounds) i w sized =
      let w' : World p.Dev = record w { dev = p.write w.dev i 1 block } in
      let (d, run, inside, outside) = write_from-run block rounds (i + 1) w' sized in
      (
        d,
        run,
        λ b low high. elim (ℕ_discrete b i) [
          | yes e ↦
              outside b (inl (omega arith))
              ∙ ap (λ k. p.read (p.write w.dev i 1 block) k 1) e
              ∙ p.read-write_self w.dev i block sized
          | no ne ↦ inside b (omega arith) (omega arith)
        ],
        λ b out. outside b (further b out) ∙ p.read-write_other w.dev i b block (apart b out),
      )
    where
      further : (b : ℕ) → (b < i) ⊎ (i + suc rounds ≤ b) → (b < i + 1) ⊎ (i + 1 + rounds ≤ b)
      further b (inl low) = inl (omega arith)
      further b (inr high) = inr (omega arith)

      apart : (b : ℕ) → (b < i) ⊎ (i + suc rounds ≤ b) → i ≢ b
      apart b (inl low) e = omega arith
      apart b (inr high) e = omega arith

  -- A request of the asynchronous form.
  pub record Fills (block : List Byte) (n : ℕ) (r : Request) : Type 0 where
    pub transfer : r.transfer ≡ w_request block
    pub one : r.nr ≡ 1
    pub low : r.start < n

  -- Each block before `n` is written or still in flight, and no other block is touched.
  pub record IsFilling (block : List Byte) (n : ℕ) (dev : p.Dev) (s : System p.Dev) : Type 0 where
    pub each : Each (Fills block n) s.pending
    pub inside : (b : ℕ) → b < n → Some (λ r. r.start ≡ b) s.pending ⊎ (p.read s.dev b 1 ≡ block)
    pub outside : (b : ℕ) → n ≤ b → p.read s.dev b 1 ≡ p.read dev b 1

  pub reactor_complete-Fills :
      (block : List Byte) (n : ℕ) (r : Request) (s : System p.Dev)
      → Fills block n r
      → ((reactor_complete r s).dev ≡ p.write s.dev r.start 1 block)
        × ((reactor_complete r s).pending ≡ s.pending)
  unfolding reactor_complete do_transfer
  reactor_complete-Fills block n r s h = (
    ap (λ t. (do_transfer t r.start r.nr s).dev) h.transfer
        ∙ ap (λ k. p.write s.dev r.start k block) h.one,
    ap (λ t. (do_transfer t r.start r.nr s).pending) h.transfer,
  )

  pub Step-IsFilling :
      (block : List Byte) {n : ℕ} {dev : p.Dev} {s t : System p.Dev}
      → length block ≡ 512
      → IsFilling block n dev s
      → Step s t
      → IsFilling block n dev t
  Step-IsFilling block {n} {dev} {s} sized inv (complete before r after e) =
      let (fills, others) =
        Each-split (Fills block n) before r after (subst (Each (Fills block n)) e inv.each) in
      let (wrote, left) =
        reactor_complete-Fills block n r (record s { pending = before ++ after }) fills in
      let stored : (b : ℕ) → r.start ≡ b → p.read (p.write s.dev r.start 1 block) b 1 ≡ block =
        (λ b at.
          ap (λ k. p.read (p.write s.dev r.start 1 block) k 1) (sym at)
          ∙ p.read-write_self s.dev r.start block sized) in
      record {
        each = subst (Each (Fills block n)) (sym left) others;
        inside = λ b low. elim (ℕ_discrete r.start b) [
          | yes at ↦ inr (ap (λ d. p.read d b 1) wrote ∙ stored b at)
          | no ne ↦ elim (inv.inside b low) [
            | inl some_left ↦
                elim (Some-split (λ x. x.start ≡ b) before r after
                  (subst (Some (λ x. x.start ≡ b)) e some_left)) [
                    | inl at ↦ absurd (ne at)
                    | inr rest ↦ inl (subst (Some (λ x. x.start ≡ b)) (sym left) rest)
                  ]
            | inr done_before ↦ inr (
                ap (λ d. p.read d b 1) wrote
                ∙ p.read-write_other s.dev r.start b block ne
                ∙ done_before)
          ]
        ];
        outside = λ b high.
            ap (λ d. p.read d b 1) wrote
            ∙ p.read-write_other s.dev r.start b block (λ at. omega (arith, fills.low))
            ∙ inv.outside b high;
      }

  pub Reach-IsFilling :
      (block : List Byte) {n : ℕ} {dev : p.Dev} {s t : System p.Dev}
      → length block ≡ 512
      → IsFilling block n dev s
      → Reach s t
      → IsFilling block n dev t
  Reach-IsFilling block sized inv here = inv
  Reach-IsFilling block sized inv (later go st) =
      Step-IsFilling block sized (Reach-IsFilling block sized inv go) st
