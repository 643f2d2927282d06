-- ===== src/EventLoop/Tasks.antt =====
-- The rounds of EventLoop::loop, against a queue from which one task at a time is taken and run: the
-- loop swaps m_pending_tasks for an empty queue, and runs what it took out of it.
use netrpc.Base.{
  ℕ, zero, suc, ◌≡◌, ◌∙◌, ap, sym, refl, Bool-cases, inl, inr, none, some, List, [], ◌∷◌, ◌++◌,
  length,
}
use mathlib.Core.List.{append-nil}
use netrpc.EventLoop.{
  EventLoop, Task, callback, add_later, delete_later, has_fd, add_to_epoll, delete_to_epoll,
  run_task, run_tasks, Triggered, on_all_triggered, loop_round,
}

-- `tasks` wait before those of the loop.
abbrev pub ahead : List Task → EventLoop → EventLoop
ahead tasks l = record l { pending_tasks = tasks ++ l.pending_tasks }

-- A callback that does nothing with the queue but push, and so may any other thread meanwhile.
abbrev pub OnlyPushes : (ℕ → EventLoop → EventLoop) → Type 0
OnlyPushes run =
    (cb : ℕ) (tasks : List Task) (l : EventLoop) → run cb (ahead tasks l) ≡ ahead tasks (run cb l)

module _ (run_callback : ℕ → EventLoop → EventLoop) where
  -- The first task is taken off the queue, and run.
  abbrev pub run_next : EventLoop → EventLoop
  run_next l = elim l.pending_tasks [
    | [] ↦ l
    | task ∷ tasks ↦ run_task run_callback task (record l { pending_tasks = tasks })
  ]

  abbrev pub run_first : ℕ → EventLoop → EventLoop
  run_first zero l = l
  run_first (suc n) l = run_first n (run_next l)

add_to_epoll-ahead :
    (fd : ℕ) (tasks : List Task) (l : EventLoop)
    → add_to_epoll fd (ahead tasks l) ≡ ahead tasks (add_to_epoll fd l)
unfolding add_to_epoll
add_to_epoll-ahead fd tasks l = elim (Bool-cases (has_fd fd l.listen_fds)) [
  | inl e ↦ rw e refl
  | inr e ↦ rw e refl
]

delete_to_epoll-ahead :
    (fd : ℕ) (tasks : List Task) (l : EventLoop)
    → delete_to_epoll fd (ahead tasks l) ≡ ahead tasks (delete_to_epoll fd l)
unfolding delete_to_epoll
delete_to_epoll-ahead fd tasks l = elim (Bool-cases (has_fd fd l.listen_fds)) [
  | inl e ↦ rw e refl
  | inr e ↦ rw e refl
]

module _ (run_callback : ℕ → EventLoop → EventLoop) (pushes : OnlyPushes run_callback) where
  run_task-ahead :
      (task : Task) (tasks : List Task) (l : EventLoop)
      → run_task run_callback task (ahead tasks l) ≡ ahead tasks (run_task run_callback task l)
  unfolding run_task
  run_task-ahead (callback none) tasks l = refl
  run_task-ahead (callback (some cb)) tasks l = pushes cb tasks l
  run_task-ahead (add_later fd) tasks l = add_to_epoll-ahead fd tasks l
  run_task-ahead (delete_later fd) tasks l = delete_to_epoll-ahead fd tasks l

  run_first-ahead :
      (tasks : List Task) (l : EventLoop)
      → run_first run_callback (length tasks) (ahead tasks l) ≡ run_tasks run_callback tasks l
  unfolding run_tasks
  run_first-ahead [] l = refl
  run_first-ahead (task ∷ tasks) l =
      ap (run_first run_callback (length tasks)) (run_task-ahead task tasks l)
      ∙ run_first-ahead tasks (run_task run_callback task l)

  -- A round runs each task that waits at its start once, in the order in which they were pushed, as
  -- if it took them one by one from the queue that others push to meanwhile; then it pushes the
  -- callbacks of what epoll_wait returned. What is pushed in the round waits for the next one. (The
  -- callbacks, and other threads meanwhile, do nothing with the queue but push.)
  pub loop_round-run_first :
      (triggered : List Triggered) (l : EventLoop)
      → loop_round run_callback triggered l
        ≡ on_all_triggered triggered (run_first run_callback (length l.pending_tasks) l)
  unfolding loop_round
  loop_round-run_first triggered l =
      let emptied : EventLoop = record l { pending_tasks = [] } in
      ap (on_all_triggered triggered) (
        sym (
          ap
            (λ tasks.
              run_first run_callback (length l.pending_tasks) (record l { pending_tasks = tasks }))
            (sym (append-nil l.pending_tasks))
          ∙ run_first-ahead l.pending_tasks emptied))
