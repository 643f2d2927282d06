-- ===== src/EventLoop/Wakeup.antt =====
-- What the eventfd is for: that a loop whose queue holds a task does not wait in epoll_wait, and when
-- it does all the same.
use mathlib.Core.Path.{subst}
use netrpc.Base.{
  ℕ, suc, ◌+◌, ◌≤◌, ◌≡◌, refl, ap, inl, inr, Bool, true, false, ◌||◌, none, some, List, [], ◌∷◌,
  length, length-append, Bool-cases, arith,
}
use netrpc.EventLoop.{
  EventLoop, Task, callback, add_later, delete_later, add_to_epoll, delete_to_epoll, add_task,
  wakeup, run_task,
}
use netrpc.EventLoop.Threads.{
  Phase, testing, waiting, left, running, LoopThread, drain_wakeups, run_or_drain, is_drain, Step,
  push, set_quit, write, swap, leave, run_first, wait, return, Steps, here, next,
}

abbrev pub flag : Bool → ℕ
flag true = 1
flag false = 0

-- A callback leaves the queue as it is, and where it sets m_quit it writes to the eventfd, as stop
-- does.
pub record Local (run : ℕ → EventLoop → EventLoop) : Type 0 where
  pub pending : (cb : ℕ) (l : EventLoop) → (run cb l).pending_tasks ≡ l.pending_tasks
  pub told :
      (cb : ℕ) (l : EventLoop) → flag (run cb l).quit + l.wakeups ≤ (run cb l).wakeups + flag l.quit

-- What the loop has to be told of is not more than the writes that are there and to come.
abbrev pub Told : ℕ → EventLoop → Type 0
Told writing l = length l.pending_tasks + flag l.quit ≤ l.wakeups + writing

-- Between the swap and the end of epoll_wait, unless the eventfd has been read in between.
abbrev pub IsTold : Phase → Bool → ℕ → EventLoop → Type 0
IsTold testing drained writing l = Unit {0}
IsTold left drained writing l = Unit {0}
IsTold _ true writing l = Unit {0}
IsTold _ false writing l = Told writing l

add_to_epoll-same :
    (fd : ℕ) (l : EventLoop)
    → ((add_to_epoll fd l).pending_tasks ≡ l.pending_tasks)
      × ((add_to_epoll fd l).wakeups ≡ l.wakeups)
      × ((add_to_epoll fd l).quit ≡ l.quit)
unfolding add_to_epoll
add_to_epoll-same fd l = ground arith

delete_to_epoll-same :
    (fd : ℕ) (l : EventLoop)
    → ((delete_to_epoll fd l).pending_tasks ≡ l.pending_tasks)
      × ((delete_to_epoll fd l).wakeups ≡ l.wakeups)
      × ((delete_to_epoll fd l).quit ≡ l.quit)
unfolding delete_to_epoll
delete_to_epoll-same fd l = ground arith

module _ (run : ℕ → EventLoop → EventLoop) (drain : ℕ) (local : Local run) where
  pub run_task-pending :
      (task : Task) (l : EventLoop)
      → (run_task (run_or_drain run drain) task l).pending_tasks ≡ l.pending_tasks
  unfolding run_task run_or_drain drain_wakeups
  run_task-pending (callback none) l = refl
  run_task-pending (callback (some cb)) l = ground (arith, local.pending cb l)
  run_task-pending (add_later fd) l = (add_to_epoll-same fd l).0
  run_task-pending (delete_later fd) l = (delete_to_epoll-same fd l).0

  run_task-Told :
      (task : Task) (writing : ℕ) (l : EventLoop)
      → is_drain drain task ≡ false
      → Told writing l
      → Told writing (run_task (run_or_drain run drain) task l)
  unfolding run_task run_or_drain is_drain
  run_task-Told (callback none) writing l q h = h
  run_task-Told (callback (some cb)) writing l q h =
      rw q (omega (arith, ap length (local.pending cb l), local.told cb l))
  run_task-Told (add_later fd) writing l q h = ground (arith, add_to_epoll-same fd l)
  run_task-Told (delete_later fd) writing l q h = ground (arith, delete_to_epoll-same fd l)

IsTold-mono :
    (phase : Phase) (drained : Bool) (v w : ℕ) (l m : EventLoop)
    → (Told v l → Told w m)
    → IsTold phase drained v l
    → IsTold phase drained w m
IsTold-mono testing drained v w l m f h = tt
IsTold-mono left drained v w l m f h = tt
IsTold-mono waiting true v w l m f h = tt
IsTold-mono waiting false v w l m f h = f h
IsTold-mono (running ts) true v w l m f h = tt
IsTold-mono (running ts) false v w l m f h = f h

module _ (run : ℕ → EventLoop → EventLoop) (drain : ℕ) (local : Local run) where
  run_first-IsTold :
      (task : Task) (tasks : List Task) (drained : Bool) (writing : ℕ) (l : EventLoop)
      → IsTold (running (task ∷ tasks)) drained writing l
      → IsTold
          (running tasks)
          (drained || is_drain drain task)
          writing
          (run_task (run_or_drain run drain) task l)
  run_first-IsTold task tasks true writing l h = tt
  run_first-IsTold task tasks false writing l h = elim (Bool-cases (is_drain drain task)) [
    | inl e ↦ rw e tt
    | inr e ↦ rw e (run_task-Told run drain local task writing l e h)
  ]

  wait-IsTold :
      (drained : Bool) (writing : ℕ) (l : EventLoop)
      → IsTold (running []) drained writing l
      → IsTold waiting drained writing l
  wait-IsTold true writing l h = tt
  wait-IsTold false writing l h = h

  abbrev IsToldAt : LoopThread → Type 0
  IsToldAt s = IsTold s.phase s.has_drained s.writing s.loop

  Step-IsTold : {s t : LoopThread} → Step run drain s t → IsToldAt s → IsToldAt t
  unfolding add_task wakeup
  Step-IsTold {s} (push task) h =
      IsTold-mono s.phase s.has_drained s.writing (suc s.writing) s.loop _
        (λ told. omega (arith, told, length-append s.loop.pending_tasks (task ∷ []))) h
  Step-IsTold {s} set_quit h =
      IsTold-mono s.phase s.has_drained s.writing (suc s.writing) s.loop _
        (λ told. omega (arith, told)) h
  Step-IsTold {s} (write n e) h =
      IsTold-mono s.phase s.has_drained s.writing n s.loop _ (λ told. omega (arith, told, e)) h
  Step-IsTold (swap e q) h = rw q (omega arith)
  Step-IsTold (leave e q) h = tt
  Step-IsTold {s} (run_first task tasks e) h =
      run_first-IsTold task tasks s.has_drained s.writing s.loop
        (subst (λ p. IsTold p s.has_drained s.writing s.loop) e h)
  Step-IsTold {s} (wait e) h =
      wait-IsTold s.has_drained s.writing s.loop
        (subst (λ p. IsTold p s.has_drained s.writing s.loop) e h)
  Step-IsTold (return triggered e) h = tt

  Steps-IsTold : {s t : LoopThread} → Steps run drain s t → IsToldAt s → IsToldAt t
  Steps-IsTold here h = h
  Steps-IsTold (next r st) h = Step-IsTold st (Steps-IsTold r h)

  -- Whatever tasks are pushed from other threads, in whatever order their pushes, their writes to the
  -- eventfd, stops and the steps of the loop's thread come: while the thread waits in epoll_wait, and
  -- has not read the eventfd since it last took the queue, the writes that the eventfd holds and
  -- those that are to come are no fewer than the tasks in the queue, and one more where m_quit is
  -- set. So the wait ends at once, or when the thread that is in addTask or stop goes on. (The
  -- callbacks push no task to their own loop.)
  pub Steps-wakeups :
      {s t : LoopThread}
      → Steps run drain s t
      → s.phase ≡ testing
      → t.phase ≡ waiting
      → t.has_drained ≡ false
      → length t.loop.pending_tasks + flag t.loop.quit ≤ t.loop.wakeups + t.writing
  Steps-wakeups {s} {t} r at_start at_end undrained =
      let h : IsToldAt t = Steps-IsTold r (rw at_start tt) in
      subst (λ d. IsTold waiting d t.writing t.loop) undrained
        (subst (λ p. IsTold p t.has_drained t.writing t.loop) at_end h)
