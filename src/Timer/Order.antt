-- ===== src/Timer/Order.antt =====
-- The map of pending events is in the order of its keys.
use netrpc.Base.{
  ℕ, ◌≡◌, refl, true, ℤ, leb_ℤ, Bool-cases, inl, inr, arith, All, List, [], ◌∷◌, if_both,
}
use netrpc.Timer.{
  Timer, reset_by, reset_arrive_time, emplace, is_earlier, add_timer_event, erase_event,
  delete_timer_event, drop_due, add_again, add_repeated, on_timer, reset_event, set_event,
}

-- No key of the map is below `k`.
abbrev pub Above : ℤ → List (ℤ × ℕ) → Type 0
Above k = All (λ (e : ℤ × ℕ). leb_ℤ k e.0 ≡ true)

abbrev pub Sorted : List (ℤ × ℕ) → Type 0
Sorted [] = Unit {0}
Sorted ((k, i) ∷ m) = Above k m × Sorted m

Above-trans : (j k : ℤ) (m : List (ℤ × ℕ)) → leb_ℤ j k ≡ true → Above k m → Above j m
Above-trans j k [] h a = tt
Above-trans j k ((l, i) ∷ m) h a = (ground arith, Above-trans j k m h a.1)

Above-emplace :
    (j k : ℤ) (i : ℕ) (m : List (ℤ × ℕ)) → leb_ℤ j k ≡ true → Above j m → Above j (emplace k i m)
unfolding emplace
Above-emplace j k i [] h a = (h, tt)
Above-emplace j k i ((l, g) ∷ m) h a = elim (Bool-cases (leb_ℤ l k)) [
  | inl e ↦ rw e (a.0, Above-emplace j k i m h a.1)
  | inr e ↦ rw e (h, a)
]

pub emplace-Sorted : (k : ℤ) (i : ℕ) (m : List (ℤ × ℕ)) → Sorted m → Sorted (emplace k i m)
unfolding emplace
emplace-Sorted k i [] s = (tt, tt)
emplace-Sorted k i ((l, g) ∷ m) s = elim (Bool-cases (leb_ℤ l k)) [
  | inl e ↦ rw e (Above-emplace l k i m e s.0, emplace-Sorted k i m s.1)
  | inr e ↦
      let below : leb_ℤ k l ≡ true = ground arith in rw e ((below, Above-trans k l m below s.0), s)
]

Above-erase_event : (j k : ℤ) (i : ℕ) (m : List (ℤ × ℕ)) → Above j m → Above j (erase_event k i m)
unfolding erase_event
Above-erase_event j k i [] a = tt
Above-erase_event j k i ((l, g) ∷ m) a = ground (arith, Above-erase_event j k i m a.1)

pub erase_event-Sorted : (k : ℤ) (i : ℕ) (m : List (ℤ × ℕ)) → Sorted m → Sorted (erase_event k i m)
unfolding erase_event
erase_event-Sorted k i [] s = tt
erase_event-Sorted k i ((l, g) ∷ m) s =
    ground (arith, Above-erase_event l k i m s.0, erase_event-Sorted k i m s.1)

pub drop_due-Sorted : (now : ℤ) (m : List (ℤ × ℕ)) → Sorted m → Sorted (drop_due now m)
unfolding drop_due
drop_due-Sorted now [] s = tt
drop_due-Sorted now ((l, g) ∷ m) s = ground (arith, drop_due-Sorted now m s.1)

pub reset_by-pending_events :
    (m : List (ℤ × ℕ)) (t : Timer) → (reset_by m t).pending_events ≡ t.pending_events
unfolding reset_by
reset_by-pending_events [] t = refl
reset_by-pending_events ((k, i) ∷ m) t = refl

pub reset_arrive_time-pending_events :
    (t : Timer) → (reset_arrive_time t).pending_events ≡ t.pending_events
unfolding reset_arrive_time
reset_arrive_time-pending_events t = reset_by-pending_events t.pending_events t

pub add_timer_event-pending_events :
    (i : ℕ) (t : Timer)
    → (add_timer_event i t).pending_events ≡ emplace (t.event i).arrive_time i t.pending_events
unfolding add_timer_event
add_timer_event-pending_events i t =
    let added = record t { pending_events = emplace (t.event i).arrive_time i t.pending_events } in
    elim (Bool-cases (is_earlier i t.pending_events t)) [
      | inl e ↦ rw e (reset_arrive_time-pending_events added)
      | inr e ↦ rw e
    ]

pub add_timer_event-Sorted :
    (i : ℕ) (t : Timer) → Sorted t.pending_events → Sorted (add_timer_event i t).pending_events
add_timer_event-Sorted i t s =
    rw (add_timer_event-pending_events i t)
      (emplace-Sorted (t.event i).arrive_time i t.pending_events s)

pub delete_timer_event-Sorted :
    (i : ℕ) (t : Timer) → Sorted t.pending_events → Sorted (delete_timer_event i t).pending_events
unfolding delete_timer_event
delete_timer_event-Sorted i t s = erase_event-Sorted (t.event i).arrive_time i t.pending_events s

add_repeated-Sorted :
    (i : ℕ) (t : Timer) → Sorted t.pending_events → Sorted (add_repeated i t).pending_events
unfolding add_repeated reset_event set_event
add_repeated-Sorted i t s =
    if_both (λ (u : Timer). Sorted u.pending_events) (t.event i).is_repeated
      (add_timer_event-Sorted i (reset_event i t) s) s

add_again-Sorted :
    (is : List ℕ) (t : Timer) → Sorted t.pending_events → Sorted (add_again is t).pending_events
unfolding add_again
add_again-Sorted [] t s = s
add_again-Sorted (i ∷ is) t s = add_again-Sorted is (add_repeated i t) (add_repeated-Sorted i t s)

pub on_timer-Sorted : (t : Timer) → Sorted t.pending_events → Sorted (on_timer t).1.pending_events
unfolding on_timer
on_timer-Sorted t s =
    rw (reset_arrive_time-pending_events (add_again _ _))
      (add_again-Sorted _ _ (drop_due-Sorted _ t.pending_events s))
