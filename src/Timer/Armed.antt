-- ===== src/Timer/Armed.antt =====
-- While an event is pending the timer fd counts down.
use netrpc.Base.{
  ℕ, ◌+◌, ◌*◌, ◌<◌, ◌≡◌, if_both, ◌&&◌, ◌==◌, false, ℤ, pos_part, leb_ℤ, ◌-ℤ◌, Bool-cases, inl, inr,
  arith, List, [], ◌∷◌, Option, some, none,
}
use netrpc.Timer.{
  Timer, now_ms, timespec, interval_to, reset_by, reset_arrive_time, is_earlier, emplace,
  add_timer_event, erase_event, delete_timer_event, on_timer, add_again, set_event,
}
use netrpc.Timer.Order.{reset_by-pending_events}

-- The fd's it_value: a zero one would disarm the timer.
abbrev pub Counts : Option (ℕ × ℕ) → Type 0
Counts none = ⊥
Counts (some (sec, nsec)) = 0 < sec * 1000000000 + nsec

abbrev pub ArmedFor : List (ℤ × ℕ) → Option (ℕ × ℕ) → Type 0
ArmedFor [] value = Unit {0}
ArmedFor (e ∷ m) value = Counts value

interval_to-positive : (arrive now : ℤ) → 0 < pos_part (interval_to arrive now)
unfolding interval_to ◌-ℤ◌
interval_to-positive arrive now = ground arith

timespec-Counts : (i : ℤ) → 0 < pos_part i → Counts (some (timespec i))
unfolding timespec
timespec-Counts i h = omega arith

reset_by-ArmedFor : (m : List (ℤ × ℕ)) (t : Timer) → ArmedFor m (reset_by m t).value
unfolding reset_by
reset_by-ArmedFor [] t = tt
reset_by-ArmedFor ((k, i) ∷ m) t =
    timespec-Counts (interval_to (t.event i).arrive_time (now_ms t))
      (interval_to-positive (t.event i).arrive_time (now_ms t))

abbrev pub IsArmed : Timer → Type 0
IsArmed t = ArmedFor t.pending_events t.value

-- Timer::resetArriveTime arms the timer, whatever it was.
reset_arrive_time-IsArmed : (t : Timer) → IsArmed (reset_arrive_time t)
unfolding reset_arrive_time
reset_arrive_time-IsArmed t =
    rw (reset_by-pending_events t.pending_events t) (reset_by-ArmedFor t.pending_events t)

ArmedFor-of_Counts : (m : List (ℤ × ℕ)) (value : Option (ℕ × ℕ)) → Counts value → ArmedFor m value
ArmedFor-of_Counts [] value h = tt
ArmedFor-of_Counts (e ∷ m) value h = h

-- An event that is not the earliest joins others, for which the timer counts already.
is_earlier-Counts :
    (i : ℕ) (m : List (ℤ × ℕ)) (t : Timer)
    → is_earlier i m t ≡ false
    → ArmedFor m t.value
    → Counts t.value
unfolding is_earlier
is_earlier-Counts i [] t e h = cc
is_earlier-Counts i ((k, j) ∷ m) t e h = h

pub add_timer_event-IsArmed : (i : ℕ) (t : Timer) → IsArmed t → IsArmed (add_timer_event i t)
unfolding add_timer_event
add_timer_event-IsArmed i t h =
    let m : List (ℤ × ℕ) = emplace (t.event i).arrive_time i t.pending_events in
    elim (Bool-cases (is_earlier i t.pending_events t)) [
      | inl e ↦ rw e (reset_arrive_time-IsArmed (record t { pending_events = m }))
      | inr e ↦ rw e (ArmedFor-of_Counts m t.value (is_earlier-Counts i t.pending_events t e h))
    ]

erase_event-ArmedFor :
    (k : ℤ) (i : ℕ) (m : List (ℤ × ℕ)) (value : Option (ℕ × ℕ))
    → ArmedFor m value
    → ArmedFor (erase_event k i m) value
unfolding erase_event
erase_event-ArmedFor k i [] value h = tt
erase_event-ArmedFor k i ((j, g) ∷ m) value h =
    if_both (λ (n : List (ℤ × ℕ)). ArmedFor n value) ((leb_ℤ j k && leb_ℤ k j) && (g == i))
      (ArmedFor-of_Counts m value h) h

pub delete_timer_event-IsArmed : (i : ℕ) (t : Timer) → IsArmed t → IsArmed (delete_timer_event i t)
unfolding delete_timer_event set_event
delete_timer_event-IsArmed i t h =
    erase_event-ArmedFor (t.event i).arrive_time i t.pending_events t.value h

pub on_timer-IsArmed : (t : Timer) → IsArmed (on_timer t).1
unfolding on_timer
on_timer-IsArmed t = reset_arrive_time-IsArmed (add_again _ _)
