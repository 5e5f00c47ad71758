-- ===== src/Device/Countdown.antt =====
-- The countdown of the reactors in src/device.c: what each event leaves, whichever is run next.
use native.Mathlib.Decide.{ℕ_discrete}
use test_fs.Prelude.{
  ℕ, ◌+◌, ◌-◌, ◌≤◌, ◌<◌, ◌≡◌, ◌≢◌, ◌⊎◌, inl, inr, refl, sym, ap, ◌∙◌, arith, true, false, Option,
  none, some, List, [], ◌∷◌, ◌++◌, ◌==◌, eq→==, ne→==,
}
use test_fs.World.{done}
use test_fs.Device.{
  Spdk, Message, acquire, complete, app_start, Event, Filesystem, update, send_request,
  init_reactors_complete, acquire_on, acquire_io_channels, run_app, call_fn,
}
use test_fs.Device.Count.{
  acquires, completes, starts, count, count-append_one, Placed, Placed-append_one, has, asked, flag,
  update_lem, acquires_sum, count_down, count_down_lem,
}

module _ {k : Spdk} where
  -- How many events there are to come.
  abbrev pub to_come : Filesystem k → ℕ
  to_come s =
      asked s.events + s.outstanding_requests + count starts s.events + flag s.outstanding_requests

  pub record IsStarting (desc : k.Desc) (s : Filesystem k) : Type 0 where
    pub opened : s.bdev_ctx.bdev_desc ≡ some desc
    pub cores : (i : ℕ) → i < 3 → s.lcore i ≡ i
    pub own :
        (i : ℕ)
        → i < 3
        → (s.io_channel i ≡ none) ⊎ (s.io_channel i ≡ some (k.bdev_get_io_channel desc i))
    pub placed : Placed s.events
    pub channels : (i : ℕ) → i < 3 → count (acquires i) s.events + has (s.io_channel i) ≡ 1
    pub total : asked s.events + count completes s.events ≡ s.outstanding_requests
    pub low : s.outstanding_requests ≤ 3
    pub waiting : flag s.outstanding_requests + (count starts s.events + s.started) ≡ 1
    pub freed : s.ctx_freed ≡ (s.outstanding_requests == 0)

  -- What a pending event leaves: `rest` are the others.
  pub record IsNext (s : Filesystem k) (fn : Message) (rest : List Event) : Type 0 where
    pub counts : (f : Message → ℕ) → count f s.events ≡ f fn + count f rest
    pub others : Placed rest

  -- A run of it, and one event fewer to come.
  abbrev pub Runs : k.Desc → Filesystem k → Message → List Event → Type 0
  Runs desc s fn rest =
      (t : Filesystem k) × (call_fn k fn (record s { events = rest }) ≡ done tt t)
      × IsStarting desc t
      × (to_come t + 1 ≡ to_come s)

  pub run_app-Runs :
      (desc : k.Desc) (s : Filesystem k) (rest : List Event)
      → IsStarting desc s
      → IsNext s app_start rest
      → Runs desc s app_start rest
  unfolding call_fn run_app
  run_app-Runs desc s rest inv next = (
    record s { events = rest; started = s.started + 1 },
    refl,
    record {
      opened = inv.opened;
      cores = inv.cores;
      own = inv.own;
      placed = next.others;
      channels = λ i h. omega (arith, inv.channels i h, next.counts (acquires i));
      total = omega (
        arith,
        inv.total,
        next.counts completes,
        next.counts (acquires 0),
        next.counts (acquires 1),
        next.counts (acquires 2),
      );
      low = inv.low;
      waiting = omega (arith, inv.waiting, next.counts starts);
      freed = inv.freed;
    },
    omega (
      arith,
      next.counts starts,
      next.counts (acquires 0),
      next.counts (acquires 1),
      next.counts (acquires 2),
    ),
  )

  -- The channel of a reactor is there once it is asked for no more.
  acquire-channels :
      (desc : k.Desc) (s : Filesystem k) (rest : List Event) (j : ℕ) (c : Option k.IoChannel)
      → IsStarting desc s
      → IsNext s (acquire j) rest
      → j < 3
      → (i : ℕ) → i < 3
      → count (acquires i) rest + has (update s.io_channel j (some c) i) ≡ 1
  acquire-channels desc s rest j c inv next low i h = elim (ℕ_discrete i j) [
    | yes e ↦
        let first : acquires i (acquire j) ≡ 1 = rw (eq→== j i (sym e)) refl in
        omega (
          arith,
          inv.channels i h,
          next.counts (acquires i),
          first,
          ap has ((update_lem s.io_channel j (some c) i).0 e),
        )
    | no ne ↦
        let none_of : acquires i (acquire j) ≡ 0 = rw (ne→== j i (λ e. ne (sym e))) refl in
        omega (
          arith,
          inv.channels i h,
          next.counts (acquires i),
          none_of,
          ap has ((update_lem s.io_channel j (some c) i).1 ne),
        )
  ]

  pub acquire-Runs :
      (desc : k.Desc) (s : Filesystem k) (rest : List Event) (j : ℕ)
      → IsStarting desc s
      → IsNext s (acquire j) rest
      → j < 3
      → Runs desc s (acquire j) rest
  unfolding call_fn acquire_io_channels acquire_on send_request
  acquire-Runs desc s rest j inv next low =
      let c : Option k.IoChannel = k.bdev_get_io_channel desc (s.lcore j) in
      let sent : Event = record { lcore = s.lcore 0; fn = complete } in
      let grown : (f : Message → ℕ) → count f (rest ++ sent ∷ []) ≡ count f rest + f complete =
        (λ f. count-append_one f rest sent) in
      (
        record s { events = rest ++ sent ∷ []; io_channel = update s.io_channel j (some c) },
        ap (λ o. acquire_on k o j (record s { events = rest })) inv.opened,
        record {
          opened = inv.opened;
          cores = inv.cores;
          own = λ i h. elim (ℕ_discrete i j) [
            | yes e ↦ inr (
                (update_lem s.io_channel j (some c) i).0 e
                ∙ ap (λ n. some (k.bdev_get_io_channel desc n)) (inv.cores j low ∙ sym e))
            | no ne ↦ elim (inv.own i h) [
              | inl unset ↦ inl ((update_lem s.io_channel j (some c) i).1 ne ∙ unset)
              | inr same ↦ inr ((update_lem s.io_channel j (some c) i).1 ne ∙ same)
            ]
          ];
          placed = Placed-append_one rest sent next.others (inv.cores 0 (omega arith));
          channels = λ i h.
              omega (arith, acquire-channels desc s rest j c inv next low i h, grown (acquires i));
          total = omega (
            arith,
            inv.total,
            next.counts completes,
            next.counts (acquires 0),
            next.counts (acquires 1),
            next.counts (acquires 2),
            grown completes,
            grown (acquires 0),
            grown (acquires 1),
            grown (acquires 2),
            acquires_sum j low,
          );
          low = inv.low;
          waiting = omega (arith, inv.waiting, next.counts starts, grown starts);
          freed = inv.freed;
        },
        omega (
          arith,
          next.counts starts,
          next.counts (acquires 0),
          next.counts (acquires 1),
          next.counts (acquires 2),
          grown starts,
          grown (acquires 0),
          grown (acquires 1),
          grown (acquires 2),
          acquires_sum j low,
        ),
      )

  pub complete-Runs :
      (desc : k.Desc) (s : Filesystem k) (rest : List Event)
      → IsStarting desc s
      → IsNext s complete rest
      → Runs desc s complete rest
  unfolding call_fn init_reactors_complete send_request
  complete-Runs desc s rest inv next =
      let some_left : 0 < s.outstanding_requests =
        omega (arith, inv.total, next.counts completes) in
      let down = count_down_lem s.outstanding_requests some_left inv.low in
      let alive : s.ctx_freed ≡ false =
        inv.freed ∙ ne→== s.outstanding_requests 0 (λ e. omega (arith, e)) in
      elim (ℕ_discrete s.outstanding_requests 1) [
        | yes last ↦
            let zero_left : count_down s.outstanding_requests ≡ 0 = omega (arith, down) in
            let sent : Event = record { lcore = s.lcore 0; fn = app_start } in
            let grown : (f : Message → ℕ)
                → count f (rest ++ sent ∷ []) ≡ count f rest + f app_start =
              (λ f. count-append_one f rest sent) in
            (
              record s { events = rest ++ sent ∷ []; outstanding_requests = 0; ctx_freed = true },
              rw (alive, zero_left) refl,
              record {
                opened = inv.opened;
                cores = inv.cores;
                own = inv.own;
                placed = Placed-append_one rest sent next.others (inv.cores 0 (omega arith));
                channels = λ i h.
                    omega (arith, inv.channels i h, next.counts (acquires i), grown (acquires i));
                total = omega (
                  arith,
                  last,
                  inv.total,
                  next.counts completes,
                  next.counts (acquires 0),
                  next.counts (acquires 1),
                  next.counts (acquires 2),
                  grown completes,
                  grown (acquires 0),
                  grown (acquires 1),
                  grown (acquires 2),
                );
                low = omega arith;
                waiting =
                    omega (arith, ap flag last, inv.waiting, next.counts starts, grown starts);
                freed = refl;
              },
              omega (
                arith,
                last,
                ap flag last,
                next.counts starts,
                next.counts (acquires 0),
                next.counts (acquires 1),
                next.counts (acquires 2),
                grown starts,
                grown (acquires 0),
                grown (acquires 1),
                grown (acquires 2),
              ),
            )
        | no more ↦
            let flag_of : (n : ℕ) → n ≢ 0 → flag n ≡ 1 = (λ n ne. rw (ne→== n 0 ne) refl) in
            let left : s.outstanding_requests - 1 ≢ 0 = (λ e. omega (arith, e)) in
            let now = flag_of (s.outstanding_requests - 1) left in
            let before = flag_of s.outstanding_requests (λ e. omega (arith, e)) in
            (
              record s { events = rest; outstanding_requests = s.outstanding_requests - 1 },
              rw (alive, down, ne→== (s.outstanding_requests - 1) 0 left) refl,
              record {
                opened = inv.opened;
                cores = inv.cores;
                own = inv.own;
                placed = next.others;
                channels = λ i h. omega (arith, inv.channels i h, next.counts (acquires i));
                total = omega (
                  arith,
                  inv.total,
                  next.counts completes,
                  next.counts (acquires 0),
                  next.counts (acquires 1),
                  next.counts (acquires 2),
                );
                low = omega (arith, inv.low);
                waiting = omega (arith, now, before, inv.waiting, next.counts starts);
                freed = alive ∙ sym (ne→== (s.outstanding_requests - 1) 0 left);
              },
              omega (
                arith,
                now,
                before,
                next.counts starts,
                next.counts (acquires 0),
                next.counts (acquires 1),
                next.counts (acquires 2),
              ),
            )
      ]
