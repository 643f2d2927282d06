-- ===== src/EventLoop/WakeupTests.antt =====
-- A loop that waits for its eventfd, 5, and callbacks that stop it.
use netrpc.Base.{ℕ, ◌+◌, ◌≤◌, ◌≡◌, refl, true, false, none, some, [], ◌∷◌, length, arith}
use netrpc.FdEvent.{FdEvent, new_fd_event, handler, in_event, listen}
use netrpc.EventLoop.{EventLoop, add_later, add_task, stop, wakeup}
use netrpc.EventLoop.Threads.{LoopThread, waiting, testing, push, swap, wait, Steps, here, next}
use netrpc.EventLoop.Wakeup.{Local, flag, Steps-wakeups}
use netrpc.EventLoop.Lost.{Steps-lost}

abbrev stopping : ℕ → EventLoop → EventLoop
stopping cb l = stop l

stopping-Local : Local stopping
unfolding stop wakeup
stopping-Local = record { pending = λ cb l. refl; told = λ cb l. omega arith }

abbrev listens_to : ℕ → FdEvent
listens_to fd = listen in_event (some 9) none (new_fd_event fd)

abbrev idle : EventLoop
idle = record {
  event = listens_to;
  listen_fds = 5 ∷ [];
  pending_tasks = [];
  epoll_calls = [];
  wakeups = 0;
  quit = false;
}

abbrev starting : LoopThread
starting = record { loop = idle; phase = testing; writing = 0; has_drained = true }

abbrev pushed : LoopThread
pushed = record {
  loop = record idle { pending_tasks = add_later 7 ∷ [] };
  phase = waiting;
  writing = 1;
  has_drained = false;
}

starting-pushed : Steps stopping 9 starting pushed
unfolding add_task
starting-pushed = next (next (next here (swap refl refl)) (push (add_later 7))) (wait refl)

Steps-wakeups_example :
    length pushed.loop.pending_tasks + flag pushed.loop.quit ≤ pushed.loop.wakeups + pushed.writing
Steps-wakeups_example = Steps-wakeups stopping 9 stopping-Local starting-pushed refl refl refl

idle-handler : handler in_event (idle.event 5) ≡ some 9
unfolding handler listen
idle-handler = refl

Steps-lost_example :
    (t : LoopThread) × Steps stopping 9
      (record { loop = idle; phase = waiting; writing = 0; has_drained = false })
      t
    × (t.phase ≡ waiting)
    × (t.writing ≡ 0)
    × (t.loop.wakeups ≡ 0)
    × (t.loop.pending_tasks ≡ add_later 7 ∷ add_later 8 ∷ [])
Steps-lost_example =
    Steps-lost stopping 9 stopping-Local 5 idle (add_later 7 ∷ add_later 8 ∷ []) false refl
      idle-handler
