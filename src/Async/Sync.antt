-- ===== src/Async/Sync.antt =====
-- `read_blocks` and `write_blocks` of src/block.c, as a request and a wait.
use test_fs.Prelude.{
  ℕ, ◌*◌, ◌≡◌, refl, ap, ap₂, sym, ◌∙◌, arith, List, [], ◌∷◌, ◌++◌, length, take-all, ◌⊎◌, inl, inr,
  subst, ◌≢◌, eq→==, ne→==,
}
use test_fs.Bytes.{Byte}
use test_fs.Platform.{Platform}
use test_fs.World.{World, done}
use test_fs.Block.{read_blocks, write_blocks}
use test_fs.Async.{
  Request, System, future_init, num_reactors, data_reactor, do_transfer, send_request,
  read_blocks_async, write_blocks_async, reactor_complete, Step, complete, Reach, here, later,
  SpinWait,
}
use test_fs.Async.Wait.{
  IsBalanced, send_request-IsBalanced, spin_wait-drained, SpinWait-Reach, pending-do_transfer,
  pending_of,
}

cons-injective : {x r : Request} {xs rs : List Request} → x ∷ xs ≡ r ∷ rs → (x ≡ r) × (xs ≡ rs)
cons-injective e = (cc e, cc e)

no_cons : {r : Request} {rs : List Request} → ([] ≡ r ∷ rs) → ⊥
no_cons e = cc e

-- A list of one request splits in one way.
split-one :
    {r : Request} (before : List Request) (x : Request) (after : List Request)
    → before ++ x ∷ after ≡ r ∷ []
    → (x ≡ r) × (before ++ after ≡ [])
split-one [] x after e = cons-injective e
split-one (b ∷ []) x after e = absurd (no_cons (sym (cons-injective e).1))
split-one (b ∷ c ∷ before) x after e = absurd (no_cons (sym (cons-injective e).1))

split-nil :
    (before : List Request) (x : Request) (after : List Request) → [] ≡ before ++ x ∷ after → ⊥
split-nil [] x after e = no_cons e
split-nil (b ∷ before) x after e = no_cons e

module _ ⦃p : Platform⦄ where
  -- The state when the one request `r` of `s` is done.
  abbrev finished : Request → System p.Dev → System p.Dev
  finished r s = reactor_complete r (record s { pending = [] })

  finished-pending : (r : Request) (s : System p.Dev) → (finished r s).pending ≡ []
  unfolding reactor_complete
  finished-pending r s = pending-do_transfer r.transfer r.start r.nr (record s { pending = [] })

  Step-finished :
      {r : Request} {s u : System p.Dev} → s.pending ≡ r ∷ [] → Step s u → u ≡ finished r s
  Step-finished {s} one (complete before x after e) =
      let (same, none_left) = split-one before x after (sym e ∙ one) in
      ap₂ (λ y l. reactor_complete y (record s { pending = l })) same none_left

  Step-none : {v u : System p.Dev} → v.pending ≡ [] → Step v u → ⊥
  Step-none nothing (complete before x after e) = split-nil before x after (sym nothing ∙ e)

  Reach-finished :
      {r : Request} {s u : System p.Dev}
      → s.pending ≡ r ∷ []
      → Reach s u
      → (u ≡ s) ⊎ (u ≡ finished r s)
  Reach-finished one here = inl refl
  Reach-finished {r} {s} {u} one (later {t} go st) = of (Reach-finished one go) st
    where
      of : (t ≡ s) ⊎ (t ≡ finished r s) → Step t u → (u ≡ s) ⊎ (u ≡ finished r s)
      of (inl e) st = inr (Step-finished one (subst (λ v. Step v u) e st))
      of (inr e) st =
          absurd (Step-none (ap (λ (v : System p.Dev). v.pending) e ∙ finished-pending r s) st)

  -- With one request on a new future, the wait ends when it is done.
  spin_wait-finished :
      {r : Request} {s u : System p.Dev}
      → IsBalanced s
      → s.pending ≡ r ∷ []
      → SpinWait num_reactors 0 s u
      → u ≡ finished r s
  spin_wait-finished {r} {s} {u} b one w = of (Reach-finished one (SpinWait-Reach w))
    where
      of : (u ≡ s) ⊎ (u ≡ finished r s) → u ≡ finished r s
      of (inl e) =
          absurd
            (no_cons (sym (spin_wait-drained b w) ∙ ap (λ (v : System p.Dev). v.pending) e ∙ one))
      of (inr e) = e

  -- A caller with its buffers and a new future, and no other request on it.
  abbrev pub quiet : World p.Dev → (ℕ → List Byte) → System p.Dev
  quiet w buffers = record { dev = w.dev; buffers = buffers; future = future_init; pending = [] }

  pub quiet-IsBalanced : (w : World p.Dev) (buffers : ℕ → List Byte) → IsBalanced (quiet w buffers)
  unfolding pending_of
  quiet-IsBalanced w buffers = record { counts = λ i. omega arith; reactors = λ i h. refl }

  -- `write_blocks` sends one request and waits: however the reactors run, when the wait is over the
  -- device and the buffers are as Block has it.
  pub write_blocks-SpinWait :
      (w : World p.Dev) (buffers : ℕ → List Byte) (blocks : List Byte) (start nr : ℕ)
      {u : System p.Dev}
      → length blocks ≡ nr * 512
      → SpinWait num_reactors 0
          (write_blocks_async data_reactor blocks start nr (quiet w buffers))
          u
      → (write_blocks blocks start nr w ≡ done tt (record w { dev = u.dev }))
        × (u.buffers ≡ buffers)
  unfolding write_blocks_async send_request reactor_complete do_transfer write_blocks
  write_blocks-SpinWait w buffers blocks start nr size go =
      let e =
        spin_wait-finished
          (send_request-IsBalanced _ (quiet w buffers) (quiet-IsBalanced w buffers) (omega arith))
          refl go in
      (
        ap (λ b. done tt (record w { dev = p.write w.dev start nr b }))
              (sym (take-all (nr * 512) blocks (omega (arith, size))))
            ∙ ap (λ (v : System p.Dev). done tt (record w { dev = v.dev })) (sym e),
        ap (λ (v : System p.Dev). v.buffers) e,
      )

  -- `read_blocks` sends one request and waits: however the reactors run, when the wait is over the
  -- buffer of the caller holds what Block returns, and the device and the other buffers are as
  -- before.
  pub read_blocks-SpinWait :
      (w : World p.Dev) (buffers : ℕ → List Byte) (destination start nr : ℕ) {u : System p.Dev}
      → SpinWait num_reactors 0
          (read_blocks_async data_reactor destination start nr (quiet w buffers))
          u
      → (read_blocks start nr w ≡ done (u.buffers destination) w)
        × ((other : ℕ) → other ≢ destination → u.buffers other ≡ buffers other)
        × (u.dev ≡ w.dev)
  unfolding read_blocks_async send_request reactor_complete do_transfer read_blocks
  read_blocks-SpinWait w buffers destination start nr go =
      let e =
        spin_wait-finished
          (send_request-IsBalanced _ (quiet w buffers) (quiet-IsBalanced w buffers) (omega arith))
          refl go in
      let same = ap (λ (v : System p.Dev). v.buffers) e in
      (
        ap (λ b. done b w)
            (sym (ap (λ f. f destination) same ∙ rw (eq→== destination destination refl))),
        λ other ne. ap (λ f. f other) same ∙ rw (ne→== other destination ne),
        ap (λ (v : System p.Dev). v.dev) e,
      )
