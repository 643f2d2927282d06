-- ===== src/EventLoop/Start.antt =====
-- The constructor of EventLoop, initWakeUpFdEvent, initTimer and GetCurrentEventLoop of
-- netrpc/net/eventloop.cc, with the constructor of Timer: what a loop listens for from the start.
use netrpc.Base.{
  ℕ, ◌≡◌, ◌≢◌, refl, Bool, true, false, Result, ok, err, exited, ℤ, pos, negsuc, Option, none, some,
  List, [], ◌∷◌, ◌==◌, if◌then◌else◌, arith,
}
use netrpc.FdEvent.{new_fd_event, listen, in_event, handler}
use netrpc.EventLoop.{EventLoop, has_fd, add_to_epoll, add_epoll_event}
use netrpc.EventLoop.Epoll.{Agrees, Change, change_all, change_all-Agrees, add_to_epoll-Agrees}

-- What epoll_create, eventfd and timerfd_create return.
pub record NewFds : Type 0 where
  pub epoll_fd : ℤ
  pub wakeup_fd : ℤ
  pub timer_fd : ℕ

-- The loop before it listens for anything; its events are those of its thread's file descriptors.
unfoldable pub empty_loop : EventLoop
empty_loop = record {
  event = new_fd_event;
  listen_fds = [];
  pending_tasks = [];
  epoll_calls = [];
  wakeups = 0;
  quit = false;
}

-- An event that listens for EPOLLIN, and is added in the loop's thread.
unfoldable pub add_reader : ℕ → ℕ → EventLoop → EventLoop
add_reader cb fd l =
    let e = listen in_event (some cb) none (new_fd_event fd) in
    add_epoll_event true fd (record l { event = λ g. if g == fd then e else l.event g })

-- `drain` and `on_timer` stand for the callbacks of the eventfd and of the timer.
module _ (drain on_timer : ℕ) where
  unfoldable pub init_fds : NewFds → ℤ → Result EventLoop
  init_fds fds (negsuc n) = err exited
  init_fds fds (pos wakeup_fd) =
      ok (add_reader on_timer fds.timer_fd (add_reader drain wakeup_fd empty_loop))

  -- The constructor, by whether the thread has a loop.
  unfoldable pub new_event_loop : Bool → NewFds → Result EventLoop
  new_event_loop true fds = err exited
  new_event_loop false fds = elim fds.epoll_fd [
    | negsuc _ ↦ err exited
    | pos _ ↦ init_fds fds fds.wakeup_fd
  ]

  -- GetCurrentEventLoop, on t_current_eventloop.
  unfoldable pub get_current_event_loop : Option EventLoop → NewFds → Result EventLoop
  get_current_event_loop (some l) fds = ok l
  get_current_event_loop none fds = new_event_loop false fds

add_reader-Agrees : (cb fd : ℕ) (l : EventLoop) → Agrees [] l → Agrees [] (add_reader cb fd l)
unfolding add_reader add_epoll_event
add_reader-Agrees cb fd l h = add_to_epoll-Agrees [] fd _ h

empty-Agrees : Agrees [] empty_loop
unfolding empty_loop
empty-Agrees = refl

-- The second file descriptor is another one.
two_readers :
    (drain on_timer w t : ℕ)
    → w ≢ t
    → let l = add_reader on_timer t (add_reader drain w empty_loop) in
      (l.listen_fds ≡ t ∷ w ∷ [])
      × (handler in_event (l.event w) ≡ some drain)
      × (handler in_event (l.event t) ≡ some on_timer)
unfolding add_reader add_epoll_event add_to_epoll has_fd empty_loop handler listen
two_readers drain on_timer w t h = (ground arith, ground arith, ground arith)

-- A second loop in a thread ends the process. Otherwise, where the eventfd and the epoll instance can
-- be had: the constructor returns a loop that listens for the eventfd and for the timer, each with its
-- callback; and from there on, whatever events are added, changed and deleted, and in whatever order,
-- epoll_ctl refuses no call of the loop, and the new epoll instance has exactly the file descriptors
-- of m_listen_fds. (File descriptors are not closed in between.)
pub new_event_loop-change_all :
    (drain on_timer : ℕ) (fds : NewFds) (epoll_fd wakeup_fd : ℕ) (xs : List Change)
    → fds.epoll_fd ≡ pos epoll_fd
    → fds.wakeup_fd ≡ pos wakeup_fd
    → wakeup_fd ≢ fds.timer_fd
    → (l : EventLoop) × (new_event_loop drain on_timer false fds ≡ ok l)
      × (new_event_loop drain on_timer true fds ≡ err exited)
      × (l.listen_fds ≡ fds.timer_fd ∷ wakeup_fd ∷ [])
      × (handler in_event (l.event wakeup_fd) ≡ some drain)
      × (handler in_event (l.event fds.timer_fd) ≡ some on_timer)
      × Agrees [] (change_all xs l)
unfolding new_event_loop init_fds
new_event_loop-change_all drain on_timer fds epoll_fd wakeup_fd xs made woken other =
    let l₁ : EventLoop = add_reader drain wakeup_fd empty_loop in
    let l : EventLoop = add_reader on_timer fds.timer_fd l₁ in
    let agrees : Agrees [] l =
      add_reader-Agrees on_timer fds.timer_fd l₁
        (add_reader-Agrees drain wakeup_fd empty_loop empty-Agrees) in
    let (listed, wakes, ticks) = two_readers drain on_timer wakeup_fd fds.timer_fd other in
    (
      l,
      rw (made, new_event_loop) (rw (woken, init_fds) refl),
      refl,
      listed,
      wakes,
      ticks,
      change_all-Agrees [] xs l agrees,
    )
