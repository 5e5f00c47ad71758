-- ===== src/Async.antt =====
-- src/async.c and the asynchronous half of src/block.c: futures, requests to the reactors, and
-- waiting. A request that was sent is pending until its reactor completes it. The device may
-- complete pending requests in any order; its transfer and the callback are one step.
pub mod Wait
pub mod Sync
pub mod Schedule
pub mod Pending
use test_fs.Prelude.{ℕ, zero, suc, ◌+◌, ◌≡◌, ◌==◌, if◌then◌else◌, List, [], ◌∷◌, ◌++◌, ◌*◌, take}
use test_fs.Bytes.{Byte}
use test_fs.Platform.{Platform, block_size}

-- NUM_REACTORS
abbrev pub num_reactors : ℕ
num_reactors = 3

-- METADATA_REACTOR
abbrev pub metadata_reactor : ℕ
metadata_reactor = 1

-- DATA_REACTOR
abbrev pub data_reactor : ℕ
data_reactor = 2

-- struct future
pub record Future : Type 0 where
  pub counts : ℕ → ℕ
  pub expected_counts : ℕ → ℕ

-- One more at a reactor.
unfoldable pub bump : ℕ → (ℕ → ℕ) → ℕ → ℕ
bump reactor_id f i = if i == reactor_id then f i + 1 else f i

-- future_init
abbrev pub future_init : Future
future_init = record { counts = λ _. 0; expected_counts = λ _. 0 }

-- The callback of a request: what is read goes to a buffer of the caller, known by a number; what
-- is written was copied when the request was made.
pub data Transfer : Type 0 where
  r_request : (destination : ℕ) → Transfer
  w_request : (buf : List Byte) → Transfer

-- struct rw_request
pub record Request : Type 0 where
  pub transfer : Transfer
  pub start : ℕ
  pub nr : ℕ
  pub reactor_id : ℕ

-- The device, the buffers of the callers, the future they wait for, and the requests in flight.
pub record System (D : Type 0) : Type 0 where
  pub dev : D
  pub buffers : ℕ → List Byte
  pub future : Future
  pub pending : List Request

module _ ⦃p : Platform⦄ where
  -- fill_request_common and send_request, with the count that is expected.
  unfoldable pub send_request : Request → System p.Dev → System p.Dev
  send_request r s = record s {
    future = record s.future { expected_counts = bump r.reactor_id s.future.expected_counts };
    pending = s.pending ++ r ∷ [];
  }

  -- read_blocks_async
  unfoldable pub read_blocks_async :
      (reactor_id destination start nr : ℕ) → System p.Dev → System p.Dev
  read_blocks_async reactor_id destination start nr =
      send_request (record {
        transfer = r_request destination;
        start = start;
        nr = nr;
        reactor_id = reactor_id;
      })

  -- write_blocks_async
  unfoldable pub write_blocks_async :
      (reactor_id : ℕ) → List Byte → (start nr : ℕ) → System p.Dev → System p.Dev
  write_blocks_async reactor_id blocks start nr = send_request (record {
    transfer = w_request (take (nr * block_size) blocks);
    start = start;
    nr = nr;
    reactor_id = reactor_id;
  })

  -- The transfer of reactor_read with the copy of reactor_read_complete, or that of reactor_write.
  unfoldable pub do_transfer : Transfer → (start nr : ℕ) → System p.Dev → System p.Dev
  do_transfer (r_request destination) start nr s = record s {
    buffers = λ b. if b == destination then p.read s.dev start nr else s.buffers b;
  }
  do_transfer (w_request buf) start nr s = record s { dev = p.write s.dev start nr buf }

  -- reactor_read_complete and reactor_write_complete: the transfer, then the count.
  unfoldable pub reactor_complete : Request → System p.Dev → System p.Dev
  reactor_complete r s = record (do_transfer r.transfer r.start r.nr s) {
    future = record s.future { counts = bump r.reactor_id s.future.counts };
  }

  -- Some pending request completes.
  pub data Step (s : System p.Dev) : System p.Dev → Type 0 where
    complete :
        (before : List Request) (r : Request) (after : List Request)
        → s.pending ≡ before ++ r ∷ after
        → Step s (reactor_complete r (record s { pending = before ++ after }))

  pub data Reach (s : System p.Dev) : System p.Dev → Type 0 where
    here : Reach s s
    later : {t u : System p.Dev} → Reach s t → Step t u → Reach s u

  -- `spin_wait`: with `rounds` reactors left from reactor `i` on, it reads the counts of one after
  -- the other, at some moment at which they agree.
  pub data SpinWait : (rounds i : ℕ) → System p.Dev → System p.Dev → Type 0 where
    spun : {i : ℕ} {s : System p.Dev} → SpinWait 0 i s s
    agreed :
        {rounds i : ℕ} {s t u : System p.Dev}
        → Reach s t
        → t.future.counts i ≡ t.future.expected_counts i
        → SpinWait rounds (i + 1) t u
        → SpinWait (suc rounds) i s u
