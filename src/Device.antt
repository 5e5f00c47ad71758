-- ===== src/Device.antt =====
-- src/device.c: opening the block device, the channels of the reactors, and the start of the
-- application. SPDK is a parameter. An event that was sent to a core is pending until the reactor
-- there runs it; any pending event may be the next.
pub mod Count
pub mod Countdown
pub mod Start
use test_fs.Prelude.{
  ℕ, zero, suc, ◌+◌, ◌-◌, ◌%◌, ◌^◌, ◌≡◌, Bool, true, false, Option, none, some, List, [], ◌∷◌, ◌++◌,
  ◌==◌, not, if◌then◌else◌,
}
use test_fs.World.{Run, done, aborted, exhausted, ◌>>=◌, ◌>>◌, pure, abort, assert, non_null}
use test_fs.Async.{num_reactors}

-- The bdev layer of SPDK. A function that returns NULL on an error gives none.
pub record Spdk : Type 1 where
  pub Bdev : Type 0
  pub Desc : Type 0
  pub IoChannel : Type 0
  pub bdev_first : Option Bdev
  pub bdev_open : Bdev → Option Desc
  pub bdev_get_name : Bdev → List ℕ
  pub bdev_get_buf_align : Bdev → ℕ
  pub bdev_get_io_channel : Desc → (lcore : ℕ) → Option IoChannel

-- MAIN_REACTOR
abbrev pub main_reactor : ℕ
main_reactor = 0

-- The function of an event, with its argument.
pub data Message : Type 0 where
  acquire : (reactor : ℕ) → Message
  complete app_start : Message

pub record Event : Type 0 where
  pub lcore : ℕ
  pub fn : Message

-- struct bdev_context
pub record BdevContext (k : Spdk) : Type 0 where
  pub bdev : Option k.Bdev
  pub bdev_desc : Option k.Desc
  pub bdev_name : List ℕ
  pub buf_align : ℕ

-- struct filesystem with its reactors, struct init_completed_context, the events that are pending,
-- how often the application was started, and the code it is stopped with. A channel is none before it
-- is assigned, and then a pointer, which may be NULL.
pub record Filesystem (k : Spdk) : Type 0 where
  pub bdev_ctx : BdevContext k
  pub lcore : ℕ → ℕ
  pub io_channel : ℕ → Option (Option k.IoChannel)
  pub outstanding_requests : ℕ
  pub ctx_freed : Bool
  pub events : List Event
  pub started : ℕ
  pub stopped : Option ℕ

-- A function changed at one number.
unfoldable pub update : {A : Type 0} → (ℕ → A) → ℕ → A → ℕ → A
update f n a m = if m == n then a else f m

module _ (k : Spdk) where
  abbrev pub Action : Type 0 → Type 0
  Action A = Filesystem k → Run (Filesystem k) A

  -- send_request of src/async.c, at the start of the program
  unfoldable pub send_request : (lcore : ℕ) → Message → Action (Unit {0})
  send_request lcore fn s =
      done tt (record s { events = s.events ++ (record { lcore = lcore; fn = fn }) ∷ [] })

  -- spdk_app_stop, which returns to its caller
  unfoldable pub app_stop : (code : ℕ) → Action (Unit {0})
  app_stop code s = done tt (record s { stopped = some code })

  -- The end of `init_bdev`: the device is opened. Without a descriptor it goes on.
  unfoldable pub open_bdev : k.Bdev → Option k.Desc → Action (Unit {0})
  open_bdev bdev none s = done tt (record s {
    bdev_ctx = record {
      bdev = some bdev;
      bdev_desc = none;
      bdev_name = k.bdev_get_name bdev;
      buf_align = k.bdev_get_buf_align bdev;
    };
    stopped = some (2 ^ 32 - 1);
  })
  open_bdev bdev (some desc) s = done tt (record s {
    bdev_ctx = record {
      bdev = some bdev;
      bdev_desc = some desc;
      bdev_name = k.bdev_get_name bdev;
      buf_align = k.bdev_get_buf_align bdev;
    };
  })

  -- `init_bdev` with the first device. Without one it stops the application, and then takes the
  -- block size of NULL.
  unfoldable pub init_first : Option k.Bdev → Action (Unit {0})
  init_first none = app_stop (2 ^ 32 - 1) >> abort
  init_first (some bdev) = open_bdev bdev (k.bdev_open bdev)

  -- init_bdev
  unfoldable pub init_bdev : Action (Unit {0})
  init_bdev = init_first k.bdev_first

  -- init_reactors_complete; the last one frees the context.
  unfoldable pub init_reactors_complete : Action (Unit {0})
  init_reactors_complete s =
      let left = (s.outstanding_requests + 2 ^ 64 - 1) % 2 ^ 64 in
      let s' = record s { outstanding_requests = left } in
      (do
        assert (not s.ctx_freed)
        λ _.
            if not (left == 0)
            then done tt s'
            else send_request (s.lcore main_reactor) app_start (record s' { ctx_freed = true }))
        s

  -- `acquire_io_channels` with the descriptor of the device.
  unfoldable pub acquire_on : Option k.Desc → (reactor : ℕ) → Action (Unit {0})
  acquire_on none reactor s = aborted
  acquire_on (some desc) reactor s = send_request (s.lcore main_reactor) complete (record s {
    io_channel = update s.io_channel reactor (some (k.bdev_get_io_channel desc (s.lcore reactor)));
  })

  -- acquire_io_channels
  unfoldable pub acquire_io_channels : (reactor : ℕ) → Action (Unit {0})
  acquire_io_channels reactor s = acquire_on s.bdev_ctx.bdev_desc reactor s

  -- The application, which is counted.
  unfoldable pub run_app : Action (Unit {0})
  run_app s = done tt (record s { started = s.started + 1 })

  -- __call_fn of src/async.c
  unfoldable pub call_fn : Message → Action (Unit {0})
  call_fn (acquire reactor) = acquire_io_channels reactor
  call_fn complete = init_reactors_complete
  call_fn app_start = run_app

  -- The loop of `init_reactors`.
  unfoldable pub init_reactors : (rounds i : ℕ) → Action (Unit {0})
  init_reactors zero i s = done tt s
  init_reactors (suc rounds) i s =
      (do send_request i (acquire i); init_reactors rounds (i + 1))
        (record s { lcore = update s.lcore i i })

  -- What `start` allocates. `malloc` leaves no channel that is acquired.
  abbrev pub fresh_filesystem : Filesystem k
  fresh_filesystem = record {
    bdev_ctx = record { bdev = none; bdev_desc = none; bdev_name = []; buf_align = 0 };
    lcore = λ i. 0;
    io_channel = λ i. none;
    outstanding_requests = num_reactors;
    ctx_freed = false;
    events = [];
    started = 0;
    stopped = none;
  }

  -- start
  unfoldable pub start : Run (Filesystem k) (Unit {0})
  start = (do init_bdev; init_reactors num_reactors 0) fresh_filesystem

  -- spdk_put_io_channel, of a channel that is not NULL; it is not used again
  unfoldable pub put_io_channel : Option (Option k.IoChannel) → (i : ℕ) → Action (Unit {0})
  put_io_channel none i s = aborted
  put_io_channel (some none) i s = aborted
  put_io_channel (some (some channel)) i s =
      done tt (record s { io_channel = update s.io_channel i none })

  -- The loop of `dev_stop`: each channel is given back.
  unfoldable pub put_io_channels : (rounds i : ℕ) → Action (Unit {0})
  put_io_channels zero i s = done tt s
  put_io_channels (suc rounds) i s =
      (do put_io_channel (s.io_channel i) i; put_io_channels rounds (i + 1)) s

  -- spdk_bdev_close
  unfoldable pub bdev_close : Option k.Desc → Action (Unit {0})
  bdev_close none s = aborted
  bdev_close (some desc) s =
      done tt (record s { bdev_ctx = record s.bdev_ctx { bdev_desc = none } })

  -- dev_stop
  unfoldable pub dev_stop : Action (Unit {0})
  dev_stop s = (do put_io_channels num_reactors 0; bdev_close s.bdev_ctx.bdev_desc; app_stop 0) s

  -- Some pending event is run.
  pub data Step (s t : Filesystem k) : Type 0 where
    run_event :
        (before : List Event) (e : Event) (after : List Event)
        → s.events ≡ before ++ e ∷ after
        → call_fn e.fn (record s { events = before ++ after }) ≡ done tt t
        → Step s t

  -- A number of such steps.
  pub data Steps (s : Filesystem k) : ℕ → Filesystem k → Type 0 where
    here : Steps s 0 s
    later : {n : ℕ} {t u : Filesystem k} → Steps s n t → Step t u → Steps s (suc n) u
