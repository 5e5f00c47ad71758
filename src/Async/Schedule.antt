-- ===== src/Async/Schedule.antt =====
-- `spin_wait` of src/async.c as a function, for callers that run to their end: a schedule says which
-- of the pending requests the reactors complete next.
use test_fs.Prelude.{
  ℕ, zero, suc, ◌+◌, ◌≤◌, ◌≡◌, refl, sym, ap, ◌∙◌, subst, arith, List, [], ◌∷◌, ◌++◌, length,
}
use test_fs.Platform.{Platform}
use test_fs.Async.{
  Request, System, num_reactors, reactor_complete, Step, complete, Reach, here, SpinWait, spun,
  agreed,
}
use test_fs.Async.Wait.{IsBalanced, Reach-IsBalanced, Reach-first, pending_of, pending-do_transfer}

-- The request at an index of a list that is not empty, or its last, and the others.
unfoldable pub pick : (k : ℕ) → Request → List Request → Request × List Request
pick zero r rs = (r, rs)
pick (suc k) r [] = (r, [])
pick (suc k) r (x ∷ rs) = let (chosen, others) = pick k x rs in (chosen, r ∷ others)

module _ ⦃p : Platform⦄ where
  unfoldable pub run_pending :
      (schedule : ℕ → ℕ) → (fuel round : ℕ) → System p.Dev → List Request → System p.Dev
  run_pending schedule zero round s rs = s
  run_pending schedule (suc fuel) round s [] = s
  run_pending schedule (suc fuel) round s (r ∷ rs) =
      let (chosen, others) = pick (schedule round) r rs in
      run_pending schedule fuel (round + 1)
        (reactor_complete chosen (record s { pending = others })) others

  -- spin_wait. Each round completes a request, so one round for each is enough.
  unfoldable pub spin_wait : (schedule : ℕ → ℕ) → System p.Dev → System p.Dev
  spin_wait schedule s = run_pending schedule (length s.pending) 0 s s.pending

  pick-split :
      (k : ℕ) (r : Request) (rs : List Request)
      → (before : List Request) × (after : List Request) × (r ∷ rs
          ≡ before ++ (pick k r rs).0 ∷ after)
        × ((pick k r rs).1 ≡ before ++ after)
  unfolding pick
  pick-split zero r rs = ([], rs, refl, refl)
  pick-split (suc k) r [] = ([], [], refl, refl)
  pick-split (suc k) r (x ∷ rs) =
      let (before, after, e, left) = pick-split k x rs in
      (r ∷ before, after, ap (◌∷◌ r) e, ap (◌∷◌ r) left)

  length-pick : (k : ℕ) (r : Request) (rs : List Request) → length (pick k r rs).1 ≡ length rs
  unfolding pick
  length-pick zero r rs = refl
  length-pick (suc k) r [] = refl
  length-pick (suc k) r (x ∷ rs) = ap suc (length-pick k x rs)

  run_pending-Reach :
      (schedule : ℕ → ℕ) (fuel round : ℕ) (s : System p.Dev) (rs : List Request)
      → s.pending ≡ rs
      → length rs ≤ fuel
      → Reach s (run_pending schedule fuel round s rs)
        × ((run_pending schedule fuel round s rs).pending ≡ [])
  unfolding run_pending reactor_complete
  run_pending-Reach schedule zero round s [] e enough = (here, e)
  run_pending-Reach schedule zero round s (r ∷ rs) e enough = absurd (omega arith)
  run_pending-Reach schedule (suc fuel) round s [] e enough = (here, e)
  run_pending-Reach schedule (suc fuel) round s (r ∷ rs) e enough =
      let chosen : Request = (pick (schedule round) r rs).0 in
      let others : List Request = (pick (schedule round) r rs).1 in
      let (before, after, split, left) = pick-split (schedule round) r rs in
      let (go, drained) =
        run_pending-Reach schedule fuel (round + 1)
          (reactor_complete chosen (record s { pending = others })) others
          (pending-do_transfer chosen.transfer chosen.start chosen.nr
            (record s { pending = others }))
          (omega (arith, length-pick (schedule round) r rs)) in
      (
        Reach-first
            (subst
              (λ (l : List Request). Step s (reactor_complete chosen (record s { pending = l })))
              (sym left) (complete before chosen after (e ∙ split)))
            go,
        drained,
      )

  -- On balanced requests every schedule is a run of the wait, to its end.
  pub spin_wait-SpinWait :
      (schedule : ℕ → ℕ) (s : System p.Dev)
      → IsBalanced s
      → SpinWait num_reactors 0 s (spin_wait schedule s)
  unfolding spin_wait pending_of
  spin_wait-SpinWait schedule s b =
      let (go, drained) =
        run_pending-Reach schedule (length s.pending) 0 s s.pending refl (omega arith) in
      let t : System p.Dev = run_pending schedule (length s.pending) 0 s s.pending in
      let bt = Reach-IsBalanced b go in
      let agrees : (i : ℕ) → t.future.counts i ≡ t.future.expected_counts i =
        (λ i. omega (arith, bt.counts i, ap (pending_of i) drained)) in
      agreed go (agrees 0) (agreed here (agrees 1) (agreed here (agrees 2) spun))
