-- ===== src/Async/Wait.antt =====
-- `spin_wait` of src/async.c, and the requests that are pending when it returns.
use native.Mathlib.Decide.{ℕ_discrete, dec_lt}
use test_fs.Prelude.{
  ℕ, suc, ◌+◌, ◌≤◌, ◌<◌, ◌≡◌, refl, ap, arith, List, [], ◌∷◌, ◌++◌, length, ◌==◌, if◌then◌else◌,
  length-append,
}
use test_fs.Platform.{Platform}
use test_fs.Async.{
  Request, System, Transfer, r_request, w_request, bump, num_reactors, send_request, do_transfer,
  reactor_complete, Step, complete, Reach, here, later, SpinWait, spun, agreed,
}

-- The requests of one reactor.
unfoldable pub pending_of : ℕ → List Request → ℕ
pending_of i [] = 0
pending_of i (r ∷ rs) = let rest = pending_of i rs in if i == r.reactor_id then rest + 1 else rest

pending_of-split :
    (i : ℕ) (before : List Request) (r : Request) (after : List Request)
    → pending_of i (before ++ r ∷ after)
      ≡ (if i == r.reactor_id then 1 else 0) + pending_of i (before ++ after)
unfolding pending_of
pending_of-split i [] r after = ground arith
pending_of-split i (x ∷ before) r after = ground (arith, pending_of-split i before r after)

nothing_pending : (rs : List Request) → ((i : ℕ) → pending_of i rs ≡ 0) → rs ≡ []
unfolding pending_of
nothing_pending [] none_left = refl
nothing_pending (r ∷ rs) none_left = absurd (ground (arith, none_left r.reactor_id))

module _ ⦃p : Platform⦄ where
  -- For each reactor, the completed and the pending requests are together those expected.
  pub record IsBalanced (s : System p.Dev) : Type 0 where
    pub counts : (i : ℕ) → s.future.counts i + pending_of i s.pending ≡ s.future.expected_counts i
    pub reactors : (i : ℕ) → num_reactors ≤ i → pending_of i s.pending ≡ 0

  pub send_request-IsBalanced :
      (r : Request) (s : System p.Dev)
      → IsBalanced s
      → r.reactor_id < num_reactors
      → IsBalanced (send_request r s)
  unfolding send_request bump pending_of
  send_request-IsBalanced r s b known = record {
    counts = λ i. ground (arith, b.counts i, pending_of-split i s.pending r [], nil s.pending);
    reactors = λ i high.
        ground (arith, b.reactors i high, pending_of-split i s.pending r [], nil s.pending);
  }
    where
      nil : (rs : List Request) → rs ++ [] ≡ rs
      nil [] = refl
      nil (x ∷ rs) = ap (◌∷◌ x) (nil rs)

  pub pending-do_transfer :
      (f : Transfer) (start nr : ℕ) (s : System p.Dev)
      → (do_transfer f start nr s).pending ≡ s.pending
  unfolding do_transfer
  pending-do_transfer (r_request b) start nr s = refl
  pending-do_transfer (w_request b) start nr s = refl

  Step-IsBalanced : {s t : System p.Dev} → IsBalanced s → Step s t → IsBalanced t
  unfolding reactor_complete bump
  Step-IsBalanced {s} b (complete before r after e) =
      let left : System p.Dev = record s { pending = before ++ after } in
      let same = pending-do_transfer r.transfer r.start r.nr left in
      record {
        counts = λ i. ground (
          arith,
          b.counts i,
          ap (pending_of i) e,
          pending_of-split i before r after,
          ap (pending_of i) same,
        );
        reactors = λ i high. ground (
          arith,
          b.reactors i high,
          ap (pending_of i) e,
          pending_of-split i before r after,
          ap (pending_of i) same,
        );
      }

  -- A completion leaves one request fewer, and no more at any reactor.
  pending-Step :
      {s t : System p.Dev}
      → Step s t
      → (length t.pending + 1 ≡ length s.pending)
        × ((i : ℕ) → pending_of i t.pending ≤ pending_of i s.pending)
  unfolding reactor_complete
  pending-Step {s} (complete before r after e) =
      let left : System p.Dev = record s { pending = before ++ after } in
      let same = pending-do_transfer r.transfer r.start r.nr left in
      (
        omega (
          arith,
          ap length e,
          ap length same,
          length-append before after,
          length-append before (r ∷ after),
        ),
        λ i.
            ground (
              arith,
              ap (pending_of i) e,
              pending_of-split i before r after,
              ap (pending_of i) same,
            ),
      )

  pub Reach-IsBalanced : {s t : System p.Dev} → IsBalanced s → Reach s t → IsBalanced t
  Reach-IsBalanced b here = b
  Reach-IsBalanced b (later r st) = Step-IsBalanced (Reach-IsBalanced b r) st

  pending-Reach :
      {s t : System p.Dev} (i : ℕ) → Reach s t → pending_of i t.pending ≤ pending_of i s.pending
  pending-Reach i here = omega arith
  pending-Reach i (later r st) = omega (arith, pending-Reach i r, (pending-Step st).1 i)

  SpinWait-drains :
      {rounds i : ℕ} {s u : System p.Dev}
      → IsBalanced s
      → ((j : ℕ) → j < i → pending_of j s.pending ≡ 0)
      → SpinWait rounds i s u
      → IsBalanced u × ((j : ℕ) → j < i + rounds → pending_of j u.pending ≡ 0)
  SpinWait-drains b drained spun = (b, λ j h. drained j (omega arith))
  SpinWait-drains {rounds = suc rounds} {i} b drained (agreed {t} r e w) =
      let b' = Reach-IsBalanced b r in
      let (bu, all) =
        SpinWait-drains b'
          (λ j h. elim (ℕ_discrete j i) [
            | yes same ↦ omega (arith, b'.counts i, e, ap (λ k. pending_of k t.pending) same)
            | no ne ↦ omega (arith, pending-Reach j r, drained j (omega arith))
          ])
          w in
      (bu, λ j h. all j (omega arith))

  -- When `spin_wait` on the future of balanced requests returns, none of them is pending.
  pub spin_wait-drained :
      {s u : System p.Dev} → IsBalanced s → SpinWait num_reactors 0 s u → u.pending ≡ []
  spin_wait-drained {u} b w =
      let (bu, all) = SpinWait-drains b (λ j h. absurd (omega arith)) w in
      nothing_pending u.pending (λ i. elim (dec_lt i 3) [
        | yes low ↦ all i (omega arith)
        | no high ↦ bu.reactors i (omega arith)
      ])

  pub Reach-first : {s t u : System p.Dev} → Step s t → Reach t u → Reach s u
  Reach-first st here = later here st
  Reach-first st (later r x) = later (Reach-first st r) x

  -- The reactors can always complete what is pending.
  Reach-drained :
      (rs : List Request) (s : System p.Dev)
      → s.pending ≡ rs
      → (t : System p.Dev) × Reach s t × (t.pending ≡ [])
  unfolding reactor_complete
  Reach-drained [] s e = (s, here, e)
  Reach-drained (r ∷ rs) s e =
      let left : System p.Dev = record s { pending = rs } in
      let (t, go, drained) =
        Reach-drained rs (reactor_complete r left)
          (pending-do_transfer r.transfer r.start r.nr left) in
      (t, Reach-first (complete [] r rs e) go, drained)

  -- `spin_wait` on the future of balanced requests can return: there is an order of completions
  -- after which all counts agree, and then no request is pending.
  pub spin_wait-returns :
      {s : System p.Dev}
      → IsBalanced s
      → (u : System p.Dev) × SpinWait num_reactors 0 s u × (u.pending ≡ [])
  unfolding pending_of
  spin_wait-returns {s} b =
      let (t, go, drained) = Reach-drained s.pending s refl in
      let bt = Reach-IsBalanced b go in
      let agrees : (i : ℕ) → t.future.counts i ≡ t.future.expected_counts i =
        (λ i. omega (arith, bt.counts i, ap (pending_of i) drained)) in
      (t, agreed go (agrees 0) (agreed here (agrees 1) (agreed here (agrees 2) spun)), drained)

  Reach-append : {s t u : System p.Dev} → Reach s t → Reach t u → Reach s u
  Reach-append r here = r
  Reach-append r (later x st) = later (Reach-append r x) st

  pub SpinWait-Reach : {rounds i : ℕ} {s u : System p.Dev} → SpinWait rounds i s u → Reach s u
  SpinWait-Reach spun = here
  SpinWait-Reach (agreed r e w) = Reach-append r (SpinWait-Reach w)
