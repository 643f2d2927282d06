-- ===== src/Timer.antt =====
-- Timer and TimerEvent of netrpc/net/timer.{h,cc} and timer_event.{h,cc}. Events are shared
-- objects: the map of pending events holds references, numbers here, into a store. getNowMs reads
-- a clock, once per call; the timer fd keeps the time that it counts down from, and an expired one
-- counts no further.
pub mod Order
pub mod Due
pub mod Armed
pub mod Cancel
mod Tests
use netrpc.Base.{
  ℕ, ◌+◌, ◌*◌, ◌/◌, ◌%◌, Bool, true, false, not, ◌&&◌, ◌==◌, if◌then◌else◌, ℤ, pos, pos_part, ◌+ℤ◌,
  ◌-ℤ◌, leb_ℤ, Option, none, some, List, [], ◌∷◌, map,
}

pub record TimerEvent : Type 0 where
  pub arrive_time : ℤ
  pub interval : ℤ
  pub is_repeated : Bool
  pub is_cancled : Bool
  pub task : Option ℕ

pub record Timer : Type 0 where
  pub event : ℕ → TimerEvent
  pub pending_events : List (ℤ × ℕ)
  pub value : Option (ℕ × ℕ)
  pub clock : ℕ → ℤ
  pub reads : ℕ

-- The next reading of getNowMs.
abbrev pub now_ms : Timer → ℤ
now_ms t = t.clock t.reads

unfoldable pub set_event : ℕ → TimerEvent → Timer → Timer
set_event i e t = record t { event = λ j. if j == i then e else t.event j }

-- TimerEvent::TimerEvent at the given time.
unfoldable pub new_event : ℤ → ℤ → Bool → Option ℕ → TimerEvent
new_event now interval is_repeated task = record {
  arrive_time = now +ℤ interval;
  interval = interval;
  is_repeated = is_repeated;
  is_cancled = false;
  task = task;
}

-- TimerEvent::resetArriveTime
unfoldable pub reset_event : ℕ → Timer → Timer
reset_event i t =
    let e = t.event i in
    set_event i (record e { arrive_time = now_ms t +ℤ e.interval })
      (record t { reads = t.reads + 1 })

-- Milliseconds until the event, 100 where it is due.
unfoldable pub interval_to : ℤ → ℤ → ℤ
interval_to arrive_time now = if leb_ℤ arrive_time now then pos 100 else arrive_time -ℤ now

-- tv_sec and tv_nsec
unfoldable pub timespec : ℤ → ℕ × ℕ
timespec interval = (pos_part interval / 1000, pos_part interval % 1000 * 1000000)

-- Timer::resetArriveTime, for the pending events that it copies.
unfoldable pub reset_by : List (ℤ × ℕ) → Timer → Timer
reset_by [] t = t
reset_by ((_, i) ∷ m) t = record t {
  reads = t.reads + 1;
  value = some (timespec (interval_to (t.event i).arrive_time (now_ms t)));
}

unfoldable pub reset_arrive_time : Timer → Timer
reset_arrive_time t = reset_by t.pending_events t

-- The emplace of a multimap: behind the entries of the same key.
unfoldable pub emplace : ℤ → ℕ → List (ℤ × ℕ) → List (ℤ × ℕ)
emplace k i [] = (k, i) ∷ []
emplace k i ((j, h) ∷ m) = if leb_ℤ j k then (j, h) ∷ emplace k i m else (k, i) ∷ (j, h) ∷ m

-- is_reset_timerfd: the new event is earlier than the first one.
unfoldable pub is_earlier : ℕ → List (ℤ × ℕ) → Timer → Bool
is_earlier i [] t = true
is_earlier i ((_, j) ∷ m) t = not (leb_ℤ (t.event j).arrive_time (t.event i).arrive_time)

unfoldable pub add_timer_event : ℕ → Timer → Timer
add_timer_event i t =
    let is_reset_timerfd = is_earlier i t.pending_events t in
    let added = record t { pending_events = emplace (t.event i).arrive_time i t.pending_events } in
    if is_reset_timerfd then reset_arrive_time added else added

-- The first entry of this key and event goes.
unfoldable pub erase_event : ℤ → ℕ → List (ℤ × ℕ) → List (ℤ × ℕ)
erase_event k i [] = []
erase_event k i ((j, h) ∷ m) =
    if (leb_ℤ j k && leb_ℤ k j) && (h == i) then m else (j, h) ∷ erase_event k i m

unfoldable pub delete_timer_event : ℕ → Timer → Timer
delete_timer_event i t =
    let e = t.event i in
    let cancled = set_event i (record e { is_cancled = true }) t in
    record cancled { pending_events = erase_event e.arrive_time i t.pending_events }

-- The loop of onTimer over the map: the events in front that are due and not cancelled, and the
-- map behind the due ones.
unfoldable pub take_due : ℤ → (ℕ → TimerEvent) → List (ℤ × ℕ) → List ℕ
take_due now event [] = []
take_due now event ((k, i) ∷ m) =
    let rest = take_due now event m in
    if leb_ℤ k now then if (event i).is_cancled then rest else i ∷ rest else []

unfoldable pub drop_due : ℤ → List (ℤ × ℕ) → List (ℤ × ℕ)
drop_due now [] = []
drop_due now ((k, i) ∷ m) = if leb_ℤ k now then drop_due now m else (k, i) ∷ m

-- A repeated event is added again.
unfoldable pub add_repeated : ℕ → Timer → Timer
add_repeated i t = if (t.event i).is_repeated then add_timer_event i (reset_event i t) else t

unfoldable pub add_again : List ℕ → Timer → Timer
add_again [] t = t
add_again (i ∷ is) t = add_again is (add_repeated i t)

-- The callbacks that are set, in order.
unfoldable pub callbacks : (ℕ → TimerEvent) → List ℕ → List ℕ
callbacks event [] = []
callbacks event (i ∷ is) = elim (event i).task [
  | none ↦ callbacks event is
  | some task ↦ task ∷ callbacks event is
]

-- onTimer: the callbacks that it runs at its end, and what it leaves.
unfoldable pub on_timer : Timer → List ℕ × Timer
on_timer t =
    let now = now_ms t in
    let tmps = take_due now t.event t.pending_events in
    let expired = record t {
      value = none;
      reads = t.reads + 1;
      pending_events = drop_due now t.pending_events;
    } in
    (callbacks t.event tmps, reset_arrive_time (add_again tmps expired))
