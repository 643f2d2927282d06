-- ===== src/EventLoop/Epoll.antt =====
-- The calls of epoll_ctl that the loop makes, replayed on the kernel's table of the epoll instance.
use netrpc.Base.{
  ℕ, ◌≡◌, ◌∙◌, Bool-cases, inl, inr, Option, none, some, Option-cases, List, [], ◌∷◌, ◌++◌,
  if◌then◌else◌, arith,
}
use netrpc.FdEvent.{FdEvent}
use netrpc.EventLoop.{
  EventLoop, EpollCall, ctl_add, ctl_mod, ctl_del, has_fd, erase_fd, add_to_epoll, delete_to_epoll,
  events_of,
}

-- One call, on the file descriptors in the table: EEXIST and ENOENT are `none`.
abbrev pub ctl : EpollCall → List ℕ → Option (List ℕ)
ctl (ctl_add fd events) table = if has_fd fd table then none else some (fd ∷ table)
ctl (ctl_mod fd events) table = if has_fd fd table then some table else none
ctl (ctl_del fd) table = if has_fd fd table then some (erase_fd fd table) else none

abbrev pub replay : List EpollCall → List ℕ → Option (List ℕ)
replay [] table = some table
replay (call ∷ calls) table = elim (ctl call table) [ none ↦ none | some t ↦ replay calls t ]

replay-append :
    (xs ys : List EpollCall) (table t : List ℕ)
    → replay xs table ≡ some t
    → replay (xs ++ ys) table ≡ replay ys t
replay-append [] ys table t e = ground arith
replay-append (x ∷ xs) ys table t e = elim (Option-cases (ctl x table)) [
  | inl none_left ↦ absurd (ground arith)
  | inr (u, got) ↦ rw (got, replay) (replay-append xs ys u t (ground arith))
]

-- The kernel took every call, and its table is m_listen_fds.
abbrev pub Agrees : List ℕ → EventLoop → Type 0
Agrees start l = replay l.epoll_calls start ≡ some l.listen_fds

pub add_to_epoll-Agrees :
    (start : List ℕ) (fd : ℕ) (l : EventLoop) → Agrees start l → Agrees start (add_to_epoll fd l)
unfolding add_to_epoll
add_to_epoll-Agrees start fd l h =
    let call : EpollCall = ctl_mod fd (events_of (l.event fd)) in
    let first : EpollCall = ctl_add fd (events_of (l.event fd)) in
    elim (Bool-cases (has_fd fd l.listen_fds)) [
      | inl e ↦ rw e (replay-append l.epoll_calls (call ∷ []) start l.listen_fds h ∙ rw (e, replay))
      | inr e ↦
          rw e (replay-append l.epoll_calls (first ∷ []) start l.listen_fds h ∙ rw (e, replay))
    ]

delete_to_epoll-Agrees :
    (start : List ℕ) (fd : ℕ) (l : EventLoop) → Agrees start l → Agrees start (delete_to_epoll fd l)
unfolding delete_to_epoll
delete_to_epoll-Agrees start fd l h = elim (Bool-cases (has_fd fd l.listen_fds)) [
  | inl e ↦
      rw e (replay-append l.epoll_calls (ctl_del fd ∷ []) start l.listen_fds h ∙ rw (e, replay))
  | inr e ↦ rw e h
]

-- What happens to the events of a loop, in its thread: ADD_TO_EPOLL, DELETE_TO_EPOLL, and calls of
-- listen and cancle in between.
pub data Change : Type 0 where
  added deleted : ℕ → Change
  changed : (ℕ → FdEvent) → Change

abbrev pub change : Change → EventLoop → EventLoop
change (added fd) l = add_to_epoll fd l
change (deleted fd) l = delete_to_epoll fd l
change (changed event) l = record l { event = event }

abbrev pub change_all : List Change → EventLoop → EventLoop
change_all [] l = l
change_all (x ∷ xs) l = change_all xs (change x l)

change-Agrees :
    (start : List ℕ) (x : Change) (l : EventLoop) → Agrees start l → Agrees start (change x l)
change-Agrees start (added fd) l h = add_to_epoll-Agrees start fd l h
change-Agrees start (deleted fd) l h = delete_to_epoll-Agrees start fd l h
change-Agrees start (changed event) l h = h

-- Whatever events are added, changed and deleted, and in whatever order, epoll_ctl refuses no call
-- of the loop: a file descriptor is added only where the kernel's table does not have it, changed
-- and deleted only where it does, and m_listen_fds stays that table. (File descriptors are not
-- closed in between.)
pub change_all-Agrees :
    (start : List ℕ) (xs : List Change) (l : EventLoop)
    → Agrees start l
    → Agrees start (change_all xs l)
change_all-Agrees start [] l h = h
change_all-Agrees start (x ∷ xs) l h =
    change_all-Agrees start xs (change x l) (change-Agrees start x l h)
