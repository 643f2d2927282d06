-- ===== src/Timer/Tests.antt =====
-- A timer with a repeated event and a one-shot event, and runs of it.
use netrpc.Base.{
  ℕ, ◌+◌, ◌≡◌, ◌≢◌, refl, false, pos, some, List, [], ◌∷◌, All, arith, if◌then◌else◌, ◌==◌,
}
use netrpc.Timer.{TimerEvent, Timer, callbacks, on_timer, add_timer_event, delete_timer_event}
use netrpc.Timer.Due.{on_timer-due}
use netrpc.Timer.Cancel.{IsSound, start, later, fired, added, Steps-IsSound, deleted-never_fires}

-- The event 0 arrives at 150 and is repeated, all others arrive at 130.
abbrev events : ℕ → TimerEvent
events i = record {
  arrive_time = if i == 0 then pos 150 else pos 130;
  interval = pos 50;
  is_repeated = i == 0;
  is_cancled = false;
  task = some i;
}

abbrev two : Timer
two = record {
  event = events;
  pending_events = (pos 130, 1) ∷ (pos 150, 0) ∷ [];
  value = some (0, 30000000);
  clock = λ n. pos (140 + n);
  reads = 0;
}

on_timer-due_example : (on_timer two).0 ≡ 1 ∷ []
unfolding callbacks
on_timer-due_example = on_timer-due two ((refl, tt), (tt, tt))

two-IsSound : IsSound two
two-IsSound = record { sorted = ((refl, tt), (tt, tt)); armed = omega arith }

Steps-IsSound_example : IsSound (add_timer_event 7 (on_timer two).1)
Steps-IsSound_example = Steps-IsSound two-IsSound (later (later start fired) (added 7))

deleted-never_fires_example :
    (ids : List ℕ) × ((on_timer (add_timer_event 1 (delete_timer_event 1 two))).0
      ≡ callbacks (add_timer_event 1 (delete_timer_event 1 two)).event ids)
    × All (λ j. j ≢ 1) ids
deleted-never_fires_example =
    deleted-never_fires 1 two (add_timer_event 1 (delete_timer_event 1 two)) (later start (added 1))
