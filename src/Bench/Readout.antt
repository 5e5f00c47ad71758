-- ===== src/Bench/Readout.antt =====
-- The reads of src/bench_raw.c: what the synchronous and the asynchronous loop put into the buffer.
use native.Mathlib.Decide.{ℕ_discrete}
use test_fs.Prelude.{
  ℕ, zero, suc, ◌+◌, ◌≤◌, ◌<◌, ◌≡◌, ◌≢◌, refl, sym, ap, ap₂, ◌∙◌, subst, ◌⊎◌, inl, inr, arith, List,
  [], ◌++◌, eq→==, ne→==,
}
use test_fs.Bytes.{Byte, CInt}
use test_fs.Platform.{Platform}
use test_fs.World.{World, done}
use test_fs.Block.{read_blocks}
use test_fs.Async.{
  Request, System, r_request, num_reactors, data_reactor, send_request, do_transfer,
  reactor_complete, read_blocks_async, Step, complete, Reach, here, later, SpinWait,
}
use test_fs.Async.Wait.{IsBalanced, send_request-IsBalanced, spin_wait-drained, SpinWait-Reach}
use test_fs.Async.Pending.{Each, Some, Each-split, Some-split, Each-append_one, Some-append_one}
use test_fs.Async.Sync.{quiet, quiet-IsBalanced}
use test_fs.Async.Schedule.{spin_wait-SpinWait}
use test_fs.Bench.{rounds_of}
use test_fs.Bench.Raw.{
  read_from, benchmark_raw_read, read_from_async, with_requests, gather, benchmark_raw_read_async,
}

module _ ⦃p : Platform⦄ where
  read_from-run :
      (rounds i : ℕ) (w : World p.Dev) → read_from rounds i w ≡ done (p.read w.dev i rounds) w
  unfolding read_from read_blocks
  read_from-run zero i w = rw (p.read-zero w.dev i) refl
  read_from-run (suc rounds) i w =
      rw (read_from-run rounds (i + 1) w) (ap (λ b. done b w) (sym (p.read-suc w.dev i rounds)))

  gather-read :
      (rounds i : ℕ) (dev : p.Dev) (buffers : ℕ → List Byte)
      → ((b : ℕ) → i ≤ b → b < i + rounds → buffers b ≡ p.read dev b 1)
      → gather rounds i buffers ≡ p.read dev i rounds
  unfolding gather
  gather-read zero i dev buffers h = sym (p.read-zero dev i)
  gather-read (suc rounds) i dev buffers h =
      ap₂ (λ x y. x ++ y) (h i (omega arith) (omega arith))
        (gather-read rounds (i + 1) dev buffers (λ b low high. h b (omega arith) (omega arith)))
      ∙ sym (p.read-suc dev i rounds)

  -- A request of the asynchronous form.
  record Fetches (n : ℕ) (r : Request) : Type 0 where
    pub transfer : r.transfer ≡ r_request r.start
    pub one : r.nr ≡ 1
    pub low : r.start < n

  -- Each block before `n` is in its buffer or still in flight, and the device is as before.
  record IsFetching (n : ℕ) (dev : p.Dev) (s : System p.Dev) : Type 0 where
    pub untouched : s.dev ≡ dev
    pub each : Each (Fetches n) s.pending
    pub inside :
        (b : ℕ) → b < n → Some (λ r. r.start ≡ b) s.pending ⊎ (s.buffers b ≡ p.read dev b 1)

  reactor_complete-Fetches :
      (n : ℕ) (r : Request) (s : System p.Dev)
      → Fetches n r
      → ((reactor_complete r s).dev ≡ s.dev)
        × ((reactor_complete r s).pending ≡ s.pending)
        × ((reactor_complete r s).buffers ≡ (do_transfer (r_request r.start) r.start 1 s).buffers)
  unfolding reactor_complete do_transfer
  reactor_complete-Fetches n r s h = (
    ap (λ t. (do_transfer t r.start r.nr s).dev) h.transfer,
    ap (λ t. (do_transfer t r.start r.nr s).pending) h.transfer,
    ap (λ t. (do_transfer t r.start r.nr s).buffers) h.transfer
        ∙ ap (λ k. (do_transfer (r_request r.start) r.start k s).buffers) h.one,
  )

  do_transfer-buffer :
      (start b : ℕ) (s : System p.Dev)
      → ((b ≡ start) → (do_transfer (r_request start) start 1 s).buffers b ≡ p.read s.dev b 1)
        × ((b ≢ start) → (do_transfer (r_request start) start 1 s).buffers b ≡ s.buffers b)
  unfolding do_transfer
  do_transfer-buffer start b s = (
    λ e. rw (eq→== b start e) (ap (λ k. p.read s.dev k 1) (sym e)),
    λ ne. rw (ne→== b start ne) refl,
  )

  Step-IsFetching :
      {n : ℕ} {dev : p.Dev} {s t : System p.Dev}
      → IsFetching n dev s
      → Step s t
      → IsFetching n dev t
  Step-IsFetching {n} {dev} {s} inv (complete before r after e) =
      let (fetches, others) =
        Each-split (Fetches n) before r after (subst (Each (Fetches n)) e inv.each) in
      let s' : System p.Dev = record s { pending = before ++ after } in
      let (same, left, got) = reactor_complete-Fetches n r s' fetches in
      record {
        untouched = same ∙ inv.untouched;
        each = subst (Each (Fetches n)) (sym left) others;
        inside = λ b low. elim (ℕ_discrete b r.start) [
          | yes at ↦ inr (
              ap (λ f. f b) got
              ∙ (do_transfer-buffer r.start b s').0 at
              ∙ ap (λ d. p.read d b 1) inv.untouched)
          | no ne ↦ elim (inv.inside b low) [
            | inl some_left ↦
                elim (Some-split (λ x. x.start ≡ b) before r after
                  (subst (Some (λ x. x.start ≡ b)) e some_left)) [
                    | inl at ↦ absurd (ne (sym at))
                    | inr rest ↦ inl (subst (Some (λ x. x.start ≡ b)) (sym left) rest)
                  ]
            | inr read_before ↦
                inr (ap (λ f. f b) got ∙ (do_transfer-buffer r.start b s').1 ne ∙ read_before)
          ]
        ];
      }

  Reach-IsFetching :
      {n : ℕ} {dev : p.Dev} {s t : System p.Dev}
      → IsFetching n dev s
      → Reach s t
      → IsFetching n dev t
  Reach-IsFetching inv here = inv
  Reach-IsFetching inv (later go st) = Step-IsFetching (Reach-IsFetching inv go) st

  -- What is in flight when the blocks before `i` are asked for.
  record IsAsked (i n : ℕ) (dev : p.Dev) (s : System p.Dev) : Type 0 where
    pub balanced : IsBalanced s
    pub untouched : s.dev ≡ dev
    pub each : Each (Fetches n) s.pending
    pub some_of : (b : ℕ) → b < i → Some (λ r. r.start ≡ b) s.pending

  read_blocks_async-IsAsked :
      (i n : ℕ) (dev : p.Dev) (s : System p.Dev)
      → i < n
      → IsAsked i n dev s
      → IsAsked (i + 1) n dev (read_blocks_async data_reactor i i 1 s)
  unfolding read_blocks_async send_request
  read_blocks_async-IsAsked i n dev s low asked =
      let r : Request = record {
        transfer = r_request i;
        start = i;
        nr = 1;
        reactor_id = data_reactor;
      } in
      record {
        balanced = send_request-IsBalanced r s asked.balanced (omega arith);
        untouched = asked.untouched;
        each =
            Each-append_one (Fetches n) s.pending r asked.each
              (record { transfer = refl; one = refl; low = low });
        some_of = λ b before.
            Some-append_one (λ x. x.start ≡ b) s.pending r
              (elim (ℕ_discrete i b) [
                | yes at ↦ inr at
                | no ne ↦ inl (asked.some_of b (omega arith))
              ]);
      }

  read_from_async-IsAsked :
      (rounds i : ℕ) (dev : p.Dev) (s : System p.Dev)
      → IsAsked i (i + rounds) dev s
      → IsAsked (i + rounds) (i + rounds) dev (read_from_async rounds i s)
  unfolding read_from_async
  read_from_async-IsAsked zero i dev s asked =
      subst (λ k. IsAsked k (i + 0) dev s) (omega arith) asked
  read_from_async-IsAsked (suc rounds) i dev s asked =
      let next : System p.Dev = read_blocks_async data_reactor i i 1 s in
      let same : i + suc rounds ≡ i + 1 + rounds = omega arith in
      subst (λ k. IsAsked k k dev (read_from_async rounds (i + 1) next)) (sym same)
        (read_from_async-IsAsked rounds (i + 1) dev next (
          subst (λ k. IsAsked (i + 1) k dev next) same
            (read_blocks_async-IsAsked i (i + suc rounds) dev s (omega arith) asked)))

  -- All the requests of the asynchronous form.
  abbrev pub requests : (n : ℕ) → World p.Dev → System p.Dev
  requests n w = read_from_async n 0 (quiet w (λ _. []))

  requests-IsAsked : (n : ℕ) (w : World p.Dev) → IsAsked n n w.dev (requests n w)
  requests-IsAsked n w =
      subst (λ k. IsAsked k k w.dev (requests n w)) (omega arith)
        (read_from_async-IsAsked n 0 w.dev (quiet w (λ _. [])) (record {
          balanced = quiet-IsBalanced w (λ _. []);
          untouched = refl;
          each = tt;
          some_of = λ b low. absurd (omega arith);
        }))

  -- However the reactors run, when the wait is over the buffer holds the blocks.
  SpinWait-gather :
      (n : ℕ) (w : World p.Dev) {u : System p.Dev}
      → SpinWait num_reactors 0 (requests n w) u
      → (gather n 0 u.buffers ≡ p.read w.dev 0 n) × (u.dev ≡ w.dev)
  SpinWait-gather n w {u} go =
      let asked = requests-IsAsked n w in
      let drained = spin_wait-drained asked.balanced go in
      let inv : IsFetching n w.dev u =
        Reach-IsFetching
          (record {
            untouched = asked.untouched;
            each = asked.each;
            inside = λ b low. inl (asked.some_of b low);
          })
          (SpinWait-Reach go) in
      (
        gather-read n 0 w.dev u.buffers (λ b low high. elim (inv.inside b (omega arith)) [
          | inl some_left ↦ absurd (subst (Some (λ r. r.start ≡ b)) drained some_left)
          | inr got ↦ got
        ]),
        inv.untouched,
      )

  pub benchmark_raw_read-run :
      (schedule : ℕ → ℕ) (num_blocks : CInt) (w : World p.Dev)
      → (benchmark_raw_read num_blocks w ≡ done (p.read w.dev 0 (rounds_of num_blocks)) w)
        × (benchmark_raw_read_async schedule num_blocks w
            ≡ done (p.read w.dev 0 (rounds_of num_blocks)) w)
  unfolding benchmark_raw_read benchmark_raw_read_async with_requests
  benchmark_raw_read-run schedule num_blocks w =
      let n : ℕ = rounds_of num_blocks in
      let (got, same) =
        SpinWait-gather n w
          (spin_wait-SpinWait schedule (requests n w) (requests-IsAsked n w).balanced) in
      (read_from-run n 0 w, ap₂ (λ b d. done b (record w { dev = d })) got same)

  -- The requests of the read benchmark are balanced, so the wait on them can end.
  pub requests-IsBalanced : (n : ℕ) (w : World p.Dev) → IsBalanced (requests n w)
  requests-IsBalanced n w = (requests-IsAsked n w).balanced
