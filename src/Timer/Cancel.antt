-- ===== src/Timer/Cancel.antt =====
-- The timer over time: the steps that it takes, what every step keeps, and a cancelled event.
use netrpc.Base.{
  ℕ, ◌≡◌, ◌≢◌, refl, true, ◌==◌, ℤ, leb_ℤ, Bool-cases, inl, inr, arith, All, List, [], ◌∷◌, if_both,
}
use netrpc.Timer.{
  Timer, TimerEvent, now_ms, set_event, reset_event, reset_by, reset_arrive_time, is_earlier,
  add_timer_event, delete_timer_event, take_due, add_repeated, add_again, callbacks, on_timer,
}
use netrpc.Timer.Order.{Sorted, add_timer_event-Sorted, delete_timer_event-Sorted, on_timer-Sorted}
use netrpc.Timer.Armed.{
  IsArmed, add_timer_event-IsArmed, delete_timer_event-IsArmed, on_timer-IsArmed,
}

-- One call on the timer, or some time that passes. The events of a run stand in the store from its
-- start.
pub data Step (t : Timer) : Timer → Type 0 where
  added : (i : ℕ) → Step t (add_timer_event i t)
  deleted : (i : ℕ) → Step t (delete_timer_event i t)
  fired : Step t (on_timer t).1
  waited : (clock : ℕ → ℤ) → Step t (record t { clock = clock })

pub data Steps (t : Timer) : Timer → Type 0 where
  start : Steps t t
  later : {u v : Timer} → Steps t u → Step u v → Steps t v

-- The map is in key order, and the timer counts while it holds an event.
pub record IsSound (t : Timer) : Type 0 where
  pub sorted : Sorted t.pending_events
  pub armed : IsArmed t

Step-IsSound : {t u : Timer} → Step t u → IsSound t → IsSound u
Step-IsSound {t} (added i) h = record {
  sorted = add_timer_event-Sorted i t h.sorted;
  armed = add_timer_event-IsArmed i t h.armed;
}
Step-IsSound {t} (deleted i) h = record {
  sorted = delete_timer_event-Sorted i t h.sorted;
  armed = delete_timer_event-IsArmed i t h.armed;
}
Step-IsSound {t} fired h = record {
  sorted = on_timer-Sorted t h.sorted;
  armed = on_timer-IsArmed t;
}
Step-IsSound (waited clock) h = record { sorted = h.sorted; armed = h.armed }

-- Whatever is added, deleted and fired, and in whatever order, the map of pending events stays in
-- key order, and the timer fd counts down, from more than zero, while the map holds an event.
pub Steps-IsSound : {t u : Timer} → IsSound t → Steps t u → IsSound u
Steps-IsSound h start = h
Steps-IsSound h (later s k) = Step-IsSound k (Steps-IsSound h s)

abbrev IsCancled : ℕ → Timer → Type 0
IsCancled i t = (t.event i).is_cancled ≡ true

set_event-IsCancled :
    (i j : ℕ) (e : TimerEvent) (t : Timer)
    → ((t.event j).is_cancled ≡ true → e.is_cancled ≡ true)
    → IsCancled i t
    → IsCancled i (set_event j e t)
unfolding set_event
set_event-IsCancled i j e t keep h = elim (Bool-cases (i == j)) [
  | inl same ↦ rw same (keep (ground arith))
  | inr other ↦ rw other h
]

reset_by-event : (m : List (ℤ × ℕ)) (t : Timer) → (reset_by m t).event ≡ t.event
unfolding reset_by
reset_by-event [] t = refl
reset_by-event ((k, j) ∷ m) t = refl

reset_arrive_time-event : (t : Timer) → (reset_arrive_time t).event ≡ t.event
unfolding reset_arrive_time
reset_arrive_time-event t = reset_by-event t.pending_events t

add_timer_event-event : (i : ℕ) (t : Timer) → (add_timer_event i t).event ≡ t.event
unfolding add_timer_event
add_timer_event-event i t =
    if_both (λ (u : Timer). u.event ≡ t.event) (is_earlier i t.pending_events t)
      (reset_arrive_time-event _) refl

add_repeated-IsCancled : (i j : ℕ) (t : Timer) → IsCancled i t → IsCancled i (add_repeated j t)
unfolding add_repeated reset_event
add_repeated-IsCancled i j t h =
    if_both (IsCancled i) (t.event j).is_repeated
      (rw (add_timer_event-event j (reset_event j t)) (set_event-IsCancled i j _ _ (λ e. e) h)) h

add_again-IsCancled :
    (i : ℕ) (js : List ℕ) (t : Timer) → IsCancled i t → IsCancled i (add_again js t)
unfolding add_again
add_again-IsCancled i [] t h = h
add_again-IsCancled i (j ∷ js) t h =
    add_again-IsCancled i js (add_repeated j t) (add_repeated-IsCancled i j t h)

Step-IsCancled : {t u : Timer} (i : ℕ) → Step t u → IsCancled i t → IsCancled i u
unfolding delete_timer_event on_timer
Step-IsCancled {t} i (added j) h = rw (add_timer_event-event j t) h
Step-IsCancled {t} i (deleted j) h = set_event-IsCancled i j _ t (λ e. refl) h
Step-IsCancled {t} i fired h = rw (reset_arrive_time-event _) (add_again-IsCancled i _ _ h)
Step-IsCancled i (waited clock) h = h

Steps-IsCancled : {t u : Timer} (i : ℕ) → IsCancled i t → Steps t u → IsCancled i u
Steps-IsCancled i h start = h
Steps-IsCancled i h (later s k) = Step-IsCancled i k (Steps-IsCancled i h s)

delete_timer_event-IsCancled : (i : ℕ) (t : Timer) → IsCancled i (delete_timer_event i t)
unfolding delete_timer_event set_event
delete_timer_event-IsCancled i t = ground arith

take_due-others :
    (i : ℕ) (now : ℤ) (event : ℕ → TimerEvent) (m : List (ℤ × ℕ))
    → (event i).is_cancled ≡ true
    → All (λ j. j ≢ i) (take_due now event m)
unfolding take_due
take_due-others i now event [] h = tt
take_due-others i now event ((k, j) ∷ m) h =
    let rest = take_due-others i now event m h in
    elim (Bool-cases (event j).is_cancled) [
      | inl e ↦ if_both (All (λ j. j ≢ i)) (leb_ℤ k now) (rw e rest) tt
      | inr e ↦ if_both (All (λ j. j ≢ i)) (leb_ℤ k now) (rw e ((λ same. cc), rest)) tt
    ]

-- Once an event has been deleted, no later expiry of the timer runs its callback: whatever
-- happens in between, its being added again included, the callbacks that onTimer runs are those
-- of other events.
pub deleted-never_fires :
    (i : ℕ) (t u : Timer)
    → Steps (delete_timer_event i t) u
    → (ids : List ℕ) × ((on_timer u).0 ≡ callbacks u.event ids) × All (λ j. j ≢ i) ids
unfolding on_timer
deleted-never_fires i t u s = (
  take_due (now_ms u) u.event u.pending_events,
  refl,
  take_due-others i (now_ms u) u.event u.pending_events
      (Steps-IsCancled i (delete_timer_event-IsCancled i t) s),
)
