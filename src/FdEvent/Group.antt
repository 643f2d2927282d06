-- ===== src/FdEvent/Group.antt =====
-- getFdEvent: the event of a file descriptor is found at its index.
use mathlib.Core.List.{append-nil}
use netrpc.Base.{
  false, ℕ, zero, suc, ◌+◌, ◌-◌, ◌*◌, ◌/◌, ◌<◌, ◌≤◌, ◌≡◌, refl, ap, ok, some, List, [], ◌∷◌, ◌++◌,
  length, get_elem?, length-append, arith, ltb, Bool-cases, inl, inr,
}
use netrpc.FdEvent.{FdEvent, new_fd_event, new_events, grown_group, get_fd_event}

-- The event at each index is that of the file descriptor, counted from `i` on.
abbrev pub Indexed : ℕ → List FdEvent → Type 0
Indexed i [] = Unit {0}
Indexed i (e ∷ es) = (e.fd ≡ i) × Indexed (i + 1) es

pub new_events-Indexed : (n i : ℕ) → Indexed i (new_events n i)
unfolding new_events new_fd_event
new_events-Indexed zero i = tt
new_events-Indexed (suc n) i = (refl, new_events-Indexed n (i + 1))

pub length-new_events : (n i : ℕ) → length (new_events n i) ≡ n
unfolding new_events
length-new_events zero i = refl
length-new_events (suc n) i = ap suc (length-new_events n (i + 1))

Indexed-append :
    (i j : ℕ) (es fs : List FdEvent)
    → j ≡ i + length es
    → Indexed i es
    → Indexed j fs
    → Indexed i (es ++ fs)
Indexed-append i j [] fs at h k = let same : j ≡ i = omega arith in rw (← same) k
Indexed-append i j (e ∷ es) fs at h k = (h.0, Indexed-append (i + 1) j es fs (omega arith) h.1 k)

Indexed-get_elem? :
    (i k : ℕ) (es : List FdEvent)
    → Indexed i es
    → k < length es
    → (e : FdEvent) × (get_elem? es k ≡ some e) × (e.fd ≡ i + k)
Indexed-get_elem? i k [] h lt = absurd (omega arith)
Indexed-get_elem? i zero (e ∷ es) h lt = (e, refl, omega (arith, h.0))
Indexed-get_elem? i (suc k) (e ∷ es) h lt =
    let (f, got, same) = Indexed-get_elem? (i + 1) k es h.1 (omega arith) in
    (f, got, omega (arith, same))

-- The group grows past the file descriptor.
grown_group-Indexed :
    (fd : ℕ) (group : List FdEvent)
    → Indexed 0 group
    → 2 ≤ length group
    → (more : List FdEvent) × (grown_group fd group ≡ group ++ more)
      × (fd < length (group ++ more))
      × Indexed 0 (group ++ more)
unfolding grown_group
grown_group-Indexed fd group h two = elim (Bool-cases (ltb fd (length group))) [
  | inl e ↦
      let same : group ++ [] ≡ group = append-nil group in
      ([], rw (e, same), rw same (ground arith), rw same h)
  | inr e ↦
      let n : ℕ = fd * 3 / 2 - length group in
      let more : List FdEvent = new_events n (length group) in
      (
        more,
        rw e,
        omega (arith, length-append group more, length-new_events n (length group), (below e)),
        Indexed-append 0 (length group) group more (omega arith) h
            (new_events-Indexed n (length group)),
      )
]
  where
    below : ltb fd (length group) ≡ false → length group ≤ fd
    below e = ground arith

-- In a group of two events at least whose events stand at their indices (the process's group has
-- 128 at the start), getFdEvent finds an event of the file descriptor it is asked for, and leaves
-- such a group again, in which it keeps all the events that were there.
pub get_fd_event-Indexed :
    (fd : ℕ) (group : List FdEvent)
    → Indexed 0 group
    → 2 ≤ length group
    → (e : FdEvent) × (more : List FdEvent) × (get_fd_event fd group ≡ ok (e, group ++ more))
      × (e.fd ≡ fd)
      × (get_elem? (group ++ more) fd ≡ some e)
      × Indexed 0 (group ++ more)
unfolding get_fd_event
get_fd_event-Indexed fd group h two =
    let (more, grown, inside, h') = grown_group-Indexed fd group h two in
    let (e, got, same) = Indexed-get_elem? 0 fd (group ++ more) h' inside in
    (
      e,
      more,
      rw (grown, get_fd_event) (rw (got, get_fd_event) (ap (λ g. ok (e, g)) grown)),
      omega (arith, same),
      got,
      h',
    )
