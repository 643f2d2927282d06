-- ===== src/FdEvent.antt =====
-- FdEvent of netrpc/net/fd_event.{h,cc} and FdEventGroup of netrpc/net/fd_event_group.{h,cc}: what a
-- file descriptor listens for, and the events of all of them. A callback is a number.
pub mod Group
use netrpc.Base.{
  ℕ, zero, suc, ◌+◌, ◌-◌, ◌*◌, ◌/◌, Bool, true, false, ltb, Result, ok, err, fault, Option, none,
  some, List, [], ◌∷◌, ◌++◌, length, get_elem?, if◌then◌else◌,
}

pub record FdEvent : Type 0 where
  pub fd : ℕ
  pub listens_in : Bool
  pub listens_out : Bool
  pub read_callback : Option ℕ
  pub write_callback : Option ℕ
  pub error_callback : Option ℕ

pub data TriggerEvent : Type 0 where
  in_event out_event error_event : TriggerEvent

unfoldable pub new_fd_event : ℕ → FdEvent
new_fd_event fd = record {
  fd = fd;
  listens_in = false;
  listens_out = false;
  read_callback = none;
  write_callback = none;
  error_callback = none;
}

unfoldable pub handler : TriggerEvent → FdEvent → Option ℕ
handler in_event e = e.read_callback
handler out_event e = e.write_callback
handler error_event e = e.error_callback

-- Each call of listen sets the error callback where there was none, and clears it where there was.
unfoldable pub next_error_callback : Option ℕ → Option ℕ → Option ℕ
next_error_callback none callback = callback
next_error_callback (some _) callback = none

unfoldable pub listen : TriggerEvent → Option ℕ → Option ℕ → FdEvent → FdEvent
listen event_type callback error_callback e =
    let heard : FdEvent = elim event_type [
      | in_event ↦ record e { listens_in = true; read_callback = callback }
      | _ ↦ record e { listens_out = true; write_callback = callback }
    ] in
    record heard { error_callback = next_error_callback e.error_callback error_callback }

unfoldable pub cancle : TriggerEvent → FdEvent → FdEvent
cancle in_event e = record e { listens_in = false }
cancle _ e = record e { listens_out = false }

-- `n` new events from the fd `i` on.
unfoldable pub new_events : ℕ → ℕ → List FdEvent
new_events zero i = []
new_events (suc n) i = new_fd_event i ∷ new_events n (i + 1)

-- FdEventGroup::FdEventGroup
unfoldable pub new_group : ℕ → List FdEvent
new_group size = new_events size 0

-- The push_backs of getFdEvent up to `int(fd * 1.5)`.
unfoldable pub grown_group : ℕ → List FdEvent → List FdEvent
grown_group fd group =
    if ltb fd (length group)
    then group
    else group ++ new_events (fd * 3 / 2 - length group) (length group)

unfoldable pub get_fd_event : ℕ → List FdEvent → Result (FdEvent × List FdEvent)
get_fd_event fd group = elim (get_elem? (grown_group fd group) fd) [
  | none ↦ err fault
  | some e ↦ ok (e, grown_group fd group)
]
