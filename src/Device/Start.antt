-- ===== src/Device/Start.antt =====
-- The start of the application by src/device.c, in every order of events, and its stop.
use native.Mathlib.Decide.{ℕ_discrete}
use test_fs.Prelude.{
  ℕ, zero, suc, ◌+◌, ◌-◌, ◌^◌, ◌≤◌, ◌<◌, ◌≡◌, refl, sym, ap, ◌∙◌, subst, ◌⊎◌, inl, inr, arith,
  false, Option, none, some, List, [], ◌∷◌, ◌++◌,
}
use test_fs.World.{Run, done, aborted, continue}
use test_fs.Device.{
  Spdk, Message, acquire, complete, app_start, Event, Filesystem, update, send_request, open_bdev,
  init_first, init_bdev, acquire_on, acquire_io_channels, call_fn, init_reactors, fresh_filesystem,
  start, put_io_channel, put_io_channels, bdev_close, app_stop, dev_stop, Step, run_event, Steps,
  here, later,
}
use test_fs.Device.Count.{
  acquires, completes, starts, count, count-split, OnCore, Placed, Placed-split, has, asked, flag,
  update_lem,
}
use test_fs.Device.Countdown.{
  to_come, IsStarting, IsNext, Runs, run_app-Runs, acquire-Runs, complete-Runs,
}

flag_zero : (n : ℕ) → flag n ≡ 0 → n ≡ 0
flag_zero n h = ground arith

one_of : (i : ℕ) → i < 3 → (f : ℕ → ℕ) → f 0 + f 1 + f 2 ≡ 0 → f i ≡ 0
one_of zero h f e = omega (arith, e)
one_of (suc zero) h f e = omega (arith, e)
one_of (suc (suc zero)) h f e = omega (arith, e)
one_of (suc (suc (suc i))) h f e = absurd (omega arith)

acquires_all :
    (i : ℕ)
    → i < 3
    → acquires i (acquire 0) + (acquires i (acquire 1) + (acquires i (acquire 2) + 0)) ≡ 1
acquires_all i h = ground arith

three_cores : (i : ℕ) → i < 3 → update (update (update (λ j. 0) 0 0) 1 1) 2 2 i ≡ i
unfolding update
three_cores zero h = refl
three_cores (suc zero) h = refl
three_cores (suc (suc zero)) h = refl
three_cores (suc (suc (suc i))) h = absurd (omega arith)

module _ {k : Spdk} where
  call_fn-Runs :
      (desc : k.Desc) (s : Filesystem k) (before : List Event) (e : Event) (after : List Event)
      → IsStarting desc s
      → s.events ≡ before ++ e ∷ after
      → Runs desc s e.fn (before ++ after)
  call_fn-Runs desc s before e after inv split =
      let (at, others) = Placed-split before e after (subst Placed split inv.placed) in
      of e.fn at (record {
        counts = λ f. ap (count f) split ∙ count-split f before e after;
        others = others;
      })
    where
      of :
          (m : Message)
          → OnCore e.lcore m
          → IsNext s m (before ++ after)
          → Runs desc s m (before ++ after)
      of (acquire reactor) at next = acquire-Runs desc s (before ++ after) reactor inv next at.1
      of complete at next = complete-Runs desc s (before ++ after) inv next
      of app_start at next = run_app-Runs desc s (before ++ after) inv next

  done-injective :
      {s t : Filesystem k} → ◌≡◌ {A = Run (Filesystem k) (Unit {0})} (done tt s) (done tt t) → s ≡ t
  done-injective e = cc e

  Step-IsStarting :
      (desc : k.Desc) {s t : Filesystem k}
      → IsStarting desc s
      → Step k s t
      → IsStarting desc t × (to_come t + 1 ≡ to_come s)
  Step-IsStarting desc {s} {t} inv (run_event before e after split ran) =
      let (u, run, started, fewer) = call_fn-Runs desc s before e after inv split in
      subst (λ v. IsStarting desc v × (to_come v + 1 ≡ to_come s)) (done-injective (sym run ∙ ran))
        (started, fewer)

  Steps-IsStarting :
      (desc : k.Desc) {s : Filesystem k} {n : ℕ} {t : Filesystem k}
      → IsStarting desc s
      → Steps k s n t
      → IsStarting desc t × (n + to_come t ≡ to_come s)
  Steps-IsStarting desc inv here = (inv, omega arith)
  Steps-IsStarting desc inv (later go st) =
      let (mid, left) = Steps-IsStarting desc inv go in
      let (next, fewer) = Step-IsStarting desc mid st in (next, omega (arith, left, fewer))

  -- The state after `start`.
  abbrev pub launched : k.Bdev → k.Desc → Filesystem k
  launched bdev desc = record {
    bdev_ctx = record {
      bdev = some bdev;
      bdev_desc = some desc;
      bdev_name = k.bdev_get_name bdev;
      buf_align = k.bdev_get_buf_align bdev;
    };
    lcore = update (update (update (λ i. 0) 0 0) 1 1) 2 2;
    io_channel = λ i. none;
    outstanding_requests = 3;
    ctx_freed = false;
    events =
        record { lcore = 0; fn = acquire 0 }
        ∷ record { lcore = 1; fn = acquire 1 }
        ∷ record { lcore = 2; fn = acquire 2 }
        ∷ [];
    started = 0;
    stopped = none;
  }

  start-run :
      (bdev : k.Bdev) (desc : k.Desc)
      → k.bdev_first ≡ some bdev
      → k.bdev_open bdev ≡ some desc
      → start k ≡ done tt (launched bdev desc)
  unfolding start init_bdev init_first open_bdev init_reactors send_request
  start-run bdev desc first opens =
      ap (λ o. continue (init_first k o (fresh_filesystem k)) (λ _. init_reactors k 3 0)) first
      ∙ ap (λ o. continue (open_bdev k bdev o (fresh_filesystem k)) (λ _. init_reactors k 3 0))
          opens

  launched-IsStarting :
      (bdev : k.Bdev) (desc : k.Desc)
      → IsStarting desc (launched bdev desc) × (to_come (launched bdev desc) ≡ 7)
  unfolding update count
  launched-IsStarting bdev desc = (
    record {
      opened = refl;
      cores = three_cores;
      own = λ i h. inl refl;
      placed = ((refl, omega arith), ((refl, omega arith), ((refl, omega arith), tt)));
      channels = λ i h. omega (arith, acquires_all i h);
      total = refl;
      low = omega arith;
      waiting = refl;
      freed = refl;
    },
    refl,
  )

  -- When no event is pending, all is done.
  IsStarting-over :
      (desc : k.Desc) (t : Filesystem k)
      → IsStarting desc t
      → t.events ≡ []
      → (t.started ≡ 1) × (to_come t ≡ 0) × ((i : ℕ) → i < 3 → has (t.io_channel i) ≡ 1)
  unfolding count
  IsStarting-over desc t inv over =
      let none_of : (f : Message → ℕ) → count f t.events ≡ 0 = (λ f. ap (count f) over) in
      let zero_left : t.outstanding_requests ≡ 0 = omega (
        arith,
        inv.total,
        none_of completes,
        none_of (acquires 0),
        none_of (acquires 1),
        none_of (acquires 2),
      ) in
      (
        omega (arith, inv.waiting, none_of starts, ap flag zero_left),
        omega (
          arith,
          zero_left,
          none_of starts,
          none_of (acquires 0),
          none_of (acquires 1),
          none_of (acquires 2),
          ap flag zero_left,
        ),
        λ i h. omega (arith, inv.channels i h, none_of (acquires i)),
      )

  -- Before the application is started no channel is missing.
  IsStarting-channels :
      (desc : k.Desc) (t : Filesystem k)
      → IsStarting desc t
      → 0 < count starts t.events + t.started
      → (i : ℕ) → i < 3
      → has (t.io_channel i) ≡ 1
  IsStarting-channels desc t inv launched i h =
      let zero_left : t.outstanding_requests ≡ 0 =
        flag_zero t.outstanding_requests (omega (arith, inv.waiting)) in
      let none_asked : asked t.events ≡ 0 = omega (arith, inv.total, zero_left) in
      let not_asked : count (acquires i) t.events ≡ 0 =
        one_of i h (λ n. count (acquires n) t.events) none_asked in
      omega (arith, not_asked, inv.channels i h)

  put_io_channels-run :
      (rounds i : ℕ) (s : Filesystem k)
      → ((j : ℕ) → i ≤ j → j < i + rounds → (c : k.IoChannel) × (s.io_channel j ≡ some (some c)))
      → (f : ℕ → Option (Option k.IoChannel)) × (put_io_channels k rounds i s
          ≡ done tt (record s { io_channel = f }))
        × ((j : ℕ) → i ≤ j → j < i + rounds → f j ≡ none)
        × ((j : ℕ) → j < i → f j ≡ s.io_channel j)
  unfolding put_io_channels put_io_channel
  put_io_channels-run zero i s there =
      (s.io_channel, refl, λ j low high. absurd (omega arith), λ j low. refl)
  put_io_channels-run (suc rounds) i s there =
      let (c, at) = there i (omega arith) (omega arith) in
      let cleared : ℕ → Option (Option k.IoChannel) = update s.io_channel i none in
      let (f, run, gone, same) =
        put_io_channels-run rounds (i + 1) (record s { io_channel = cleared })
          (λ j low high.
            let (c', at') = there j (omega arith) (omega arith) in
            (c', (update_lem s.io_channel i none j).1 (λ e. omega (arith, e)) ∙ at')) in
      (
        f,
        ap (λ o. continue (put_io_channel k o i s) (λ _. put_io_channels k rounds (i + 1))) at
            ∙ run,
        λ j low high. elim (ℕ_discrete j i) [
          | yes e ↦ same j (omega arith) ∙ (update_lem s.io_channel i none j).0 e
          | no ne ↦ gone j (omega arith) (omega arith)
        ],
        λ j low.
            same j (omega arith) ∙ (update_lem s.io_channel i none j).1 (λ e. omega (arith, e)),
      )

  -- What `dev_stop` leaves.
  pub record IsStopped (t : Filesystem k) : Type 0 where
    pub channels : (i : ℕ) → i < 3 → t.io_channel i ≡ none
    pub closed : t.bdev_ctx.bdev_desc ≡ none
    pub code : t.stopped ≡ some 0

  dev_stop-IsStopped :
      (desc : k.Desc) (t : Filesystem k)
      → IsStarting desc t
      → ((i : ℕ) → i < 3 → (c : k.IoChannel) × (t.io_channel i ≡ some (some c)))
      → (u : Filesystem k) × (dev_stop k t ≡ done tt u) × IsStopped u
  unfolding dev_stop bdev_close app_stop
  dev_stop-IsStopped desc t inv there =
      let (f, run, gone, _) = put_io_channels-run 3 0 t (λ j low high. there j (omega arith)) in
      (
        record t {
          io_channel = f;
          bdev_ctx = record t.bdev_ctx { bdev_desc = none };
          stopped = some 0;
        },
        rw run (
            ap (λ o. continue (bdev_close k o (record t { io_channel = f })) (λ _. app_stop k 0))
              inv.opened),
        record { channels = λ i h. gone i (omega arith) (omega arith); closed = refl; code = refl },
      )

  -- A channel that was assigned is what SPDK returned for its core.
  own-there :
      (desc : k.Desc) (t : Filesystem k)
      → IsStarting desc t
      → (i : ℕ) → i < 3
      → has (t.io_channel i) ≡ 1
      → t.io_channel i ≡ some (k.bdev_get_io_channel desc i)
  own-there desc t inv i h there = elim (inv.own i h) [
    | inl unset ↦ absurd (omega (arith, there, ap has unset))
    | inr same ↦ same
  ]

  -- The application was not started, or once and with all three channels assigned.
  abbrev pub StartedWhole : k.Desc → Filesystem k → Type 0
  StartedWhole desc t =
      (t.started ≡ 0)
      ⊎ ((t.started ≡ 1)
          × (t.io_channel 0 ≡ some (k.bdev_get_io_channel desc 0))
          × (t.io_channel 1 ≡ some (k.bdev_get_io_channel desc 1))
          × (t.io_channel 2 ≡ some (k.bdev_get_io_channel desc 2)))

  IsStarting-StartedWhole :
      (desc : k.Desc) (t : Filesystem k) → IsStarting desc t → StartedWhole desc t
  IsStarting-StartedWhole desc t inv = elim (ℕ_discrete t.started 0) [
    | yes e ↦ inl e
    | no ne ↦
        let there = (λ (i : ℕ) (h : i < 3).
          own-there desc t inv i h (IsStarting-channels desc t inv (omega arith) i h)) in
        inr (
          omega (arith, inv.waiting),
          there 0 (omega arith),
          there 1 (omega arith),
          there 2 (omega arith),
        )
  ]

  -- When there is a device and it opens, `start` ends. Whatever events were run since, fewer than
  -- seven of them if one is pending: a pending event runs without a fault, on the core of its
  -- reactor if it acquires a channel and on core 0 if it counts down or starts the application; and
  -- after it the application was not started, or once and with each of the three channels assigned
  -- what SPDK returned for its core, which may be NULL.
  pub start-safe :
      (bdev : k.Bdev) (desc : k.Desc) (n : ℕ) (t : Filesystem k) (before : List Event) (e : Event)
      (after : List Event)
      → k.bdev_first ≡ some bdev
      → k.bdev_open bdev ≡ some desc
      → Steps k (launched bdev desc) n t
      → t.events ≡ before ++ e ∷ after
      → (start k ≡ done tt (launched bdev desc))
        × (n < 7)
        × OnCore e.lcore e.fn
        × ((u : Filesystem k) × (call_fn k e.fn (record t { events = before ++ after }) ≡ done tt u)
            × StartedWhole desc u)
  start-safe bdev desc n t before e after first opens go split =
      let (ready, seven) = launched-IsStarting bdev desc in
      let (inv, left) = Steps-IsStarting desc ready go in
      let (u, run, next, fewer) = call_fn-Runs desc t before e after inv split in
      (
        start-run bdev desc first opens,
        omega (arith, left, seven, fewer),
        (Placed-split before e after (subst Placed split inv.placed)).0,
        (u, run, IsStarting-StartedWhole desc u next),
      )

  -- When there is a device and it opens, SPDK returns a channel for each of the three cores that is
  -- not NULL, and events were run after `start` in any order until none is pending, then there were
  -- seven, the application was started once, with each of the three channels the one that SPDK
  -- returned for its core, and `dev_stop` gives the channels back, closes the device and stops with
  -- code 0.
  pub start-once :
      (bdev : k.Bdev) (desc : k.Desc) (n : ℕ) (t : Filesystem k)
      → k.bdev_first ≡ some bdev
      → k.bdev_open bdev ≡ some desc
      → ((i : ℕ) → i < 3 → (c : k.IoChannel) × (k.bdev_get_io_channel desc i ≡ some c))
      → Steps k (launched bdev desc) n t
      → t.events ≡ []
      → (start k ≡ done tt (launched bdev desc))
        × (n ≡ 7)
        × (t.started ≡ 1)
        × ((i : ℕ) → i < 3 → t.io_channel i ≡ some (k.bdev_get_io_channel desc i))
        × ((u : Filesystem k) × (dev_stop k t ≡ done tt u) × IsStopped u)
  start-once bdev desc n t first opens given go over =
      let (ready, seven) = launched-IsStarting bdev desc in
      let (inv, left) = Steps-IsStarting desc ready go in
      let (once, none_left, there) = IsStarting-over desc t inv over in
      (
        start-run bdev desc first opens,
        omega (arith, left, seven, none_left),
        once,
        λ i h. own-there desc t inv i h (there i h),
        dev_stop-IsStopped desc t inv (λ i h.
            let (c, got) = given i h in (c, own-there desc t inv i h (there i h) ∙ ap some got)),
      )

  Steps-first :
      {s t : Filesystem k} {n : ℕ} {u : Filesystem k}
      → Step k s t
      → Steps k t n u
      → Steps k s (suc n) u
  Steps-first st here = later here st
  Steps-first st (later go last) = later (Steps-first st go) last

  Steps-drained :
      (desc : k.Desc) (fuel : ℕ) (s : Filesystem k) (es : List Event)
      → IsStarting desc s
      → s.events ≡ es
      → to_come s ≤ fuel
      → (n : ℕ) × (t : Filesystem k) × Steps k s n t × (t.events ≡ [])
  Steps-drained desc fuel s [] inv e enough = (0, s, here, e)
  Steps-drained desc zero s (x ∷ es) inv e enough =
      let (u, run, next, fewer) = call_fn-Runs desc s [] x es inv e in absurd (omega (arith, fewer))
  Steps-drained desc (suc fuel) s (x ∷ es) inv e enough =
      let (u, run, next, fewer) = call_fn-Runs desc s [] x es inv e in
      let (n, t, go, over) = Steps-drained desc fuel u u.events next refl (omega (arith, fewer)) in
      (suc n, t, Steps-first (run_event [] x es e run) go, over)

  -- After `start` the events can be run until none is pending.
  pub start-drained :
      (bdev : k.Bdev) (desc : k.Desc)
      → (n : ℕ) × (t : Filesystem k) × Steps k (launched bdev desc) n t × (t.events ≡ [])
  start-drained bdev desc =
      let (ready, seven) = launched-IsStarting bdev desc in
      Steps-drained desc 7 (launched bdev desc) (launched bdev desc).events ready refl
        (omega (arith, seven))

  -- When there is no device, `init_bdev` goes on after its error into a NULL pointer.
  pub start-no_bdev : k.bdev_first ≡ none → start k ≡ aborted
  unfolding start init_bdev init_first app_stop
  start-no_bdev nothing =
      ap (λ o. continue (init_first k o (fresh_filesystem k)) (λ _. init_reactors k 3 0)) nothing

  -- When the device does not open, `start` asks for the stop of the application with code -1, but
  -- goes on: it sends an event to each of the three cores, and acquiring a channel, on whatever
  -- reactor, runs into the NULL descriptor.
  pub start-unopened :
      (bdev : k.Bdev)
      → k.bdev_first ≡ some bdev
      → k.bdev_open bdev ≡ none
      → (s : Filesystem k) × (start k ≡ done tt s)
        × (s.stopped ≡ some (2 ^ 32 - 1))
        × (s.events ≡ (
            record { lcore = 0; fn = acquire 0 }
            ∷ record { lcore = 1; fn = acquire 1 }
            ∷ record { lcore = 2; fn = acquire 2 }
            ∷ []))
        × ((reactor : ℕ) → call_fn k (acquire reactor) s ≡ aborted)
  unfolding start init_bdev init_first open_bdev init_reactors send_request call_fn
      acquire_io_channels acquire_on
  start-unopened bdev first shut = (
    record {
      bdev_ctx = record {
        bdev = some bdev;
        bdev_desc = none;
        bdev_name = k.bdev_get_name bdev;
        buf_align = k.bdev_get_buf_align bdev;
      };
      lcore = update (update (update (λ i. 0) 0 0) 1 1) 2 2;
      io_channel = λ i. none;
      outstanding_requests = 3;
      ctx_freed = false;
      events =
          record { lcore = 0; fn = acquire 0 }
          ∷ record { lcore = 1; fn = acquire 1 }
          ∷ record { lcore = 2; fn = acquire 2 }
          ∷ [];
      started = 0;
      stopped = some (2 ^ 32 - 1);
    },
    ap (λ o. continue (init_first k o (fresh_filesystem k)) (λ _. init_reactors k 3 0)) first
        ∙ ap (λ o. continue (open_bdev k bdev o (fresh_filesystem k)) (λ _. init_reactors k 3 0))
            shut,
    refl,
    refl,
    λ reactor. refl,
  )
