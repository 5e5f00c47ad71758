-- ===== src/Tests/Devices.antt =====
-- The theorems on the start of the application at a device in memory.
use test_fs.Prelude.{ℕ, ◌+◌, ◌<◌, ◌≡◌, refl, some, List, [], ◌∷◌}
use test_fs.World.{done}
use test_fs.Device.{Spdk, Event, acquire, Filesystem, call_fn, start, dev_stop, Steps, here}
use test_fs.Device.Count.{OnCore}
use test_fs.Device.Start.{launched, StartedWhole, IsStopped, start-safe, start-once, start-drained}

abbrev spdk : Spdk
spdk = record {
  Bdev = ℕ;
  Desc = ℕ;
  IoChannel = ℕ;
  bdev_first = some 5;
  bdev_open = λ bdev. some 8;
  bdev_get_name = λ bdev. [];
  bdev_get_buf_align = λ bdev. 64;
  bdev_get_io_channel = λ desc lcore. some (desc + lcore);
}

abbrev first_event : Event
first_event = record { lcore = 0; fn = acquire 0 }

abbrev other_events : List Event
other_events = record { lcore = 1; fn = acquire 1 } ∷ record { lcore = 2; fn = acquire 2 } ∷ []

start-safe_example :
    (start spdk ≡ done tt (launched {k = spdk} 5 8))
    × ◌<◌ 0 7
    × OnCore 0 (acquire 0)
    × ((u : Filesystem spdk) × (call_fn spdk
            (acquire 0)
            (record (launched {k = spdk} 5 8) { events = other_events })
          ≡ done tt u)
        × StartedWhole {k = spdk} 8 u)
start-safe_example =
    start-safe {k = spdk} 5 8 0 (launched {k = spdk} 5 8) [] first_event other_events refl refl here
      refl

abbrev over :
    (n : ℕ) × (t : Filesystem spdk) × Steps spdk (launched {k = spdk} 5 8) n t × (t.events ≡ [])
over = start-drained {k = spdk} 5 8

start-once_example :
    (start spdk ≡ done tt (launched {k = spdk} 5 8))
    × (over.0 ≡ 7)
    × (over.1.started ≡ 1)
    × ((i : ℕ) → i < 3 → over.1.io_channel i ≡ some (some (8 + i)))
    × ((u : Filesystem spdk) × (dev_stop spdk over.1 ≡ done tt u) × IsStopped {k = spdk} u)
start-once_example =
    start-once {k = spdk} 5 8 over.0 over.1 refl refl (λ i h. (8 + i, refl)) over.2 over.3
