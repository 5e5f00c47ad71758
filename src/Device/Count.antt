-- ===== src/Device/Count.antt =====
-- Counting the pending events of src/device.c by their functions.
use test_fs.Prelude.{
  ℕ, ◌+◌, ◌-◌, ◌%◌, ◌^◌, ◌≤◌, ◌<◌, ◌≡◌, ◌≢◌, refl, arith, Option, none, some, List, [], ◌∷◌, ◌++◌,
  ◌==◌, if◌then◌else◌, eq→==, ne→==,
}
use test_fs.Device.{Message, acquire, complete, app_start, Event, update}

-- The pending events by their functions.
abbrev pub acquires : ℕ → Message → ℕ
acquires i (acquire reactor) = if reactor == i then 1 else 0
acquires i complete = 0
acquires i app_start = 0

abbrev pub completes : Message → ℕ
completes (acquire reactor) = 0
completes complete = 1
completes app_start = 0

abbrev pub starts : Message → ℕ
starts (acquire reactor) = 0
starts complete = 0
starts app_start = 1

unfoldable pub count : (Message → ℕ) → List Event → ℕ
count f [] = 0
count f (e ∷ es) = f e.fn + count f es

pub count-split :
    (f : Message → ℕ) (before : List Event) (e : Event) (after : List Event)
    → count f (before ++ e ∷ after) ≡ f e.fn + count f (before ++ after)
unfolding count
count-split f [] e after = refl
count-split f (x ∷ before) e after = omega (arith, count-split f before e after)

pub count-append_one :
    (f : Message → ℕ) (es : List Event) (e : Event) → count f (es ++ e ∷ []) ≡ count f es + f e.fn
unfolding count
count-append_one f [] e = omega arith
count-append_one f (x ∷ es) e = omega (arith, count-append_one f es e)

-- The channel of a reactor is asked for on its own core; all else runs on the main reactor.
abbrev pub OnCore : ℕ → Message → Type 0
OnCore lcore (acquire reactor) = (lcore ≡ reactor) × (reactor < 3)
OnCore lcore complete = lcore ≡ 0
OnCore lcore app_start = lcore ≡ 0

abbrev pub Placed : List Event → Type 0
Placed [] = Unit {0}
Placed (e ∷ es) = OnCore e.lcore e.fn × Placed es

pub Placed-split :
    (before : List Event) (e : Event) (after : List Event)
    → Placed (before ++ e ∷ after)
    → OnCore e.lcore e.fn × Placed (before ++ after)
Placed-split [] e after h = h
Placed-split (x ∷ before) e after (h, hs) =
    let (at, rest) = Placed-split before e after hs in (at, (h, rest))

pub Placed-append_one :
    (es : List Event) (e : Event) → Placed es → OnCore e.lcore e.fn → Placed (es ++ e ∷ [])
Placed-append_one [] e hs h = (h, tt)
Placed-append_one (x ∷ es) e (g, hs) h = (g, Placed-append_one es e hs h)

abbrev pub has {ℓ} : {A : Type ℓ} → Option A → ℕ
has none = 0
has (some a) = 1

-- The channels that are asked for.
abbrev pub asked : List Event → ℕ
asked es = count (acquires 0) es + count (acquires 1) es + count (acquires 2) es

abbrev pub flag : ℕ → ℕ
flag n = if n == 0 then 0 else 1

pub update_lem :
    {A : Type 0} (f : ℕ → A) (n : ℕ) (a : A) (m : ℕ)
    → ((m ≡ n) → update f n a m ≡ a) × ((m ≢ n) → update f n a m ≡ f m)
unfolding update
update_lem f n a m = (λ e. rw (eq→== m n e) refl, λ ne. rw (ne→== m n ne) refl)

-- One of the three channels is asked for.
pub acquires_sum :
    (j : ℕ) → j < 3 → acquires 0 (acquire j) + acquires 1 (acquire j) + acquires 2 (acquire j) ≡ 1
acquires_sum j h = ground arith

-- The countdown while channels are still outstanding.
abbrev pub count_down : ℕ → ℕ
count_down n = (n + 2 ^ 64 - 1) % 2 ^ 64

pub count_down_lem : (n : ℕ) → 0 < n → n ≤ 3 → count_down n ≡ n - 1
count_down_lem n h low = omega arith
