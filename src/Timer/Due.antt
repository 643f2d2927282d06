-- ===== src/Timer/Due.antt =====
-- The events that onTimer finds due.
use netrpc.Base.{
  ℕ, ◌≡◌, refl, false, not, ◌&&◌, ℤ, leb_ℤ, Bool-cases, inl, inr, arith, List, [], ◌∷◌,
  if◌then◌else◌, ap,
}
use netrpc.Timer.{Timer, TimerEvent, now_ms, take_due, callbacks, on_timer}
use netrpc.Timer.Order.{Above, Sorted}

-- Of all pending events those that are due and not cancelled, wherever they stand.
abbrev pub due : ℤ → (ℕ → TimerEvent) → List (ℤ × ℕ) → List ℕ
due now event [] = []
due now event ((k, i) ∷ m) =
    let rest = due now event m in if leb_ℤ k now && not (event i).is_cancled then i ∷ rest else rest

due-none :
    (now k : ℤ) (event : ℕ → TimerEvent) (m : List (ℤ × ℕ))
    → leb_ℤ k now ≡ false
    → Above k m
    → due now event m ≡ []
due-none now k event [] late a = refl
due-none now k event ((l, i) ∷ m) late a =
    let later : leb_ℤ l now ≡ false = ground arith in rw later (due-none now k event m late a.1)

take_due-due :
    (now : ℤ) (event : ℕ → TimerEvent) (m : List (ℤ × ℕ))
    → Sorted m
    → take_due now event m ≡ due now event m
unfolding take_due
take_due-due now event [] s = refl
take_due-due now event ((k, i) ∷ m) s = elim (Bool-cases (leb_ℤ k now)) [
  | inl e ↦ rw (e, take_due-due now event m s.1, take_due) (ground arith)
  | inr e ↦ rw (e, due-none now k event m e s.0, take_due)
]

-- On a map in key order, onTimer runs the callbacks of all pending events that are due and not
-- cancelled, in key order, and of no other.
pub on_timer-due :
    (t : Timer)
    → Sorted t.pending_events
    → (on_timer t).0 ≡ callbacks t.event (due (now_ms t) t.event t.pending_events)
unfolding on_timer
on_timer-due t s = ap (callbacks t.event) (take_due-due (now_ms t) t.event t.pending_events s)
