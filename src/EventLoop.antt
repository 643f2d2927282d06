-- ===== src/EventLoop.antt =====
-- EventLoop of netrpc/net/eventloop.{h,cc}: the pending tasks, the file descriptors that it listens
-- for, and the calls of epoll_ctl that it makes. The events are a store that all threads share, by
-- file descriptor. What a callback does is a parameter; what epoll_wait returns is an argument.
pub mod Epoll
pub mod Start
pub mod Tasks
pub mod Threads
pub mod Wakeup
pub mod Lost
mod WakeupTests
mod Tests
use netrpc.Base.{
  ℕ, zero, suc, Bool, true, false, Option, none, some, List, [], ◌∷◌, ◌++◌, ◌==◌, if◌then◌else◌,
}
use netrpc.FdEvent.{FdEvent, handler, in_event, out_event, error_event}

-- What epoll_ctl is told for a file descriptor, with the events (in, out) of the first two.
pub data EpollCall : Type 0 where
  ctl_add ctl_mod : ℕ → Bool × Bool → EpollCall
  ctl_del : ℕ → EpollCall

-- A task is a callback, which may be null, or one of the two lambdas of another thread's call.
pub data Task : Type 0 where
  callback : Option ℕ → Task
  add_later delete_later : ℕ → Task

pub record EventLoop : Type 0 where
  pub event : ℕ → FdEvent
  pub listen_fds : List ℕ
  pub pending_tasks : List Task
  pub epoll_calls : List EpollCall
  pub wakeups : ℕ
  pub quit : Bool

unfoldable pub has_fd : ℕ → List ℕ → Bool
has_fd fd [] = false
has_fd fd (g ∷ fds) = if fd == g then true else has_fd fd fds

unfoldable pub erase_fd : ℕ → List ℕ → List ℕ
erase_fd fd [] = []
erase_fd fd (g ∷ fds) = if fd == g then erase_fd fd fds else g ∷ erase_fd fd fds

abbrev pub events_of : FdEvent → Bool × Bool
events_of e = (e.listens_in, e.listens_out)

-- ADD_TO_EPOLL
unfoldable pub add_to_epoll : ℕ → EventLoop → EventLoop
add_to_epoll fd l =
    if has_fd fd l.listen_fds
    then record l { epoll_calls = l.epoll_calls ++ (ctl_mod fd (events_of (l.event fd)) ∷ []) }
    else record l {
      epoll_calls = l.epoll_calls ++ (ctl_add fd (events_of (l.event fd)) ∷ []);
      listen_fds = fd ∷ l.listen_fds;
    }

-- DELETE_TO_EPOLL
unfoldable pub delete_to_epoll : ℕ → EventLoop → EventLoop
delete_to_epoll fd l =
    if has_fd fd l.listen_fds
    then record l {
      epoll_calls = l.epoll_calls ++ (ctl_del fd ∷ []);
      listen_fds = erase_fd fd l.listen_fds;
    }
    else l

unfoldable pub wakeup : EventLoop → EventLoop
wakeup l = record l { wakeups = suc l.wakeups }

unfoldable pub stop : EventLoop → EventLoop
stop l = wakeup (record l { quit = true })

unfoldable pub add_task : Task → Bool → EventLoop → EventLoop
add_task task is_wake_up l =
    let pushed = record l { pending_tasks = l.pending_tasks ++ (task ∷ []) } in
    if is_wake_up then wakeup pushed else pushed

-- The first argument is isInLoopThread().
unfoldable pub add_epoll_event : Bool → ℕ → EventLoop → EventLoop
add_epoll_event true fd l = add_to_epoll fd l
add_epoll_event false fd l = add_task (add_later fd) true l

unfoldable pub delete_epoll_event : Bool → ℕ → EventLoop → EventLoop
delete_epoll_event true fd l = delete_to_epoll fd l
delete_epoll_event false fd l = add_task (delete_later fd) true l

-- One of the events that epoll_wait returns: EPOLLIN, EPOLLOUT, EPOLLERR.
pub record Triggered : Type 0 where
  pub fd : ℕ
  pub epoll_in : Bool
  pub epoll_out : Bool
  pub epoll_err : Bool

unfoldable pub add_when : Bool → Option ℕ → EventLoop → EventLoop
add_when true cb l = add_task (callback cb) false l
add_when false cb l = l

-- With an error callback the loop adds the write callback.
unfoldable pub on_error : Bool → ℕ → EventLoop → EventLoop
on_error false fd l = l
on_error true fd l =
    let deleted = delete_epoll_event true fd l in
    elim (handler error_event (deleted.event fd)) [
      | none ↦ deleted
      | some _ ↦ add_task (callback (handler out_event (deleted.event fd))) false deleted
    ]

unfoldable pub on_triggered : Triggered → EventLoop → EventLoop
on_triggered r l =
    let l₁ = add_when r.epoll_in (handler in_event (l.event r.fd)) l in
    let l₂ = add_when r.epoll_out (handler out_event (l₁.event r.fd)) l₁ in
    on_error r.epoll_err r.fd l₂

unfoldable pub on_all_triggered : List Triggered → EventLoop → EventLoop
on_all_triggered [] l = l
on_all_triggered (r ∷ rs) l = on_all_triggered rs (on_triggered r l)

module _ (run_callback : ℕ → EventLoop → EventLoop) where
  unfoldable pub run_task : Task → EventLoop → EventLoop
  run_task (callback none) l = l
  run_task (callback (some cb)) l = run_callback cb l
  run_task (add_later fd) l = add_to_epoll fd l
  run_task (delete_later fd) l = delete_to_epoll fd l

  unfoldable pub run_tasks : List Task → EventLoop → EventLoop
  run_tasks [] l = l
  run_tasks (task ∷ tasks) l = run_tasks tasks (run_task task l)

  -- The body of `while (!m_quit)`, for what epoll_wait returns in it.
  unfoldable pub loop_round : List Triggered → EventLoop → EventLoop
  loop_round triggered l =
      on_all_triggered triggered (run_tasks l.pending_tasks (record l { pending_tasks = [] }))
