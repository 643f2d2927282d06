-- ===== src/EventLoop/Threads.antt =====
-- The thread of an EventLoop between the threads that call addTask and stop, in steps: the part of
-- addTask under its lock, the write to the wakeup's eventfd behind it, and what loop does between two
-- accesses to what they share. `wakeups` is the counter of the eventfd.
use netrpc.Base.{ℕ, suc, ◌≡◌, Bool, true, false, ◌||◌, ◌==◌, some, List, [], ◌∷◌, if◌then◌else◌}
use netrpc.EventLoop.{
  EventLoop, Task, callback, add_task, wakeup, run_task, Triggered, on_all_triggered,
}

-- Where the thread stands in loop: at the test of m_quit, behind the swap with tasks in hand, in
-- epoll_wait, or behind the loop.
pub data Phase : Type 0 where
  testing waiting left : Phase
  running : List Task → Phase

pub record LoopThread : Type 0 where
  pub loop : EventLoop
  pub phase : Phase
  -- the threads that have pushed a task or set m_quit, and have not written to the eventfd yet
  pub writing : ℕ
  -- the callback of the eventfd has run since the last swap
  pub has_drained : Bool

-- The callback of initWakeUpFdEvent: its first read empties the counter, and a second one finds it
-- empty.
unfoldable pub drain_wakeups : EventLoop → EventLoop
drain_wakeups l = record l { wakeups = 0 }

unfoldable pub is_drain : ℕ → Task → Bool
is_drain drain (callback (some cb)) = cb == drain
is_drain drain _ = false

-- `run` is what the other callbacks do; `drain` is the eventfd's.
module _ (run : ℕ → EventLoop → EventLoop) (drain : ℕ) where
  unfoldable pub run_or_drain : ℕ → EventLoop → EventLoop
  run_or_drain cb l = if cb == drain then drain_wakeups l else run cb l

  -- epoll_wait may return at any time and with any events, at the timeout with none; it need not
  -- report the eventfd, where more than ten events are ready.
  pub data Step (s : LoopThread) : LoopThread → Type 0 where
    push :
        (task : Task)
        → Step s (record s { loop = add_task task false s.loop; writing = suc s.writing })
    set_quit : Step s (record s { loop = record s.loop { quit = true }; writing = suc s.writing })
    write : (n : ℕ) → s.writing ≡ suc n → Step s (record s { loop = wakeup s.loop; writing = n })
    swap :
        s.phase ≡ testing
        → s.loop.quit ≡ false
        → Step s (record s {
          loop = record s.loop { pending_tasks = [] };
          phase = running s.loop.pending_tasks;
          has_drained = false;
        })
    leave : s.phase ≡ testing → s.loop.quit ≡ true → Step s (record s { phase = left })
    run_first :
        (task : Task) (tasks : List Task)
        → s.phase ≡ running (task ∷ tasks)
        → Step s (record s {
          loop = run_task run_or_drain task s.loop;
          phase = running tasks;
          has_drained = s.has_drained || is_drain drain task;
        })
    wait : s.phase ≡ running [] → Step s (record s { phase = waiting })
    return :
        (triggered : List Triggered)
        → s.phase ≡ waiting
        → Step s (record s { loop = on_all_triggered triggered s.loop; phase = testing })

  pub data Steps (s : LoopThread) : LoopThread → Type 0 where
    here : Steps s s
    next : {t u : LoopThread} → Steps s t → Step t u → Steps s u
