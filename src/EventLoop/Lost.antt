-- ===== src/EventLoop/Lost.antt =====
-- How a wakeup is lost: the callback that reads the eventfd is one of the tasks of a round, and runs
-- behind the swap.
use mathlib.Core.Path.{subst}
use mathlib.Core.List.{append_assoc, append-nil}
use netrpc.Base.{
  ℕ, ◌≡◌, refl, sym, ap, ◌∙◌, Bool, true, false, some, List, [], ◌∷◌, ◌++◌, ◌||◌, arith,
}
use netrpc.FdEvent.{handler, in_event}
use netrpc.EventLoop.{
  EventLoop, Task, callback, add_task, add_when, on_error, on_triggered, on_all_triggered, wakeup,
  run_task, run_tasks, Triggered,
}
use netrpc.EventLoop.Threads.{
  waiting, running, LoopThread, drain_wakeups, run_or_drain, is_drain, push, write, swap, run_first,
  wait, return, Steps, here, next,
}
use netrpc.EventLoop.Wakeup.{Local, run_task-pending}

-- Other threads call addTask, one after the other.
abbrev post_all : List Task → EventLoop → EventLoop
post_all [] l = l
post_all (task ∷ tasks) l = post_all tasks (add_task task true l)

post_all-pending :
    (posts : List Task) (l : EventLoop)
    → (post_all posts l).pending_tasks ≡ l.pending_tasks ++ posts
unfolding add_task wakeup
post_all-pending [] l = sym (append-nil l.pending_tasks)
post_all-pending (task ∷ tasks) l =
    post_all-pending tasks _ ∙ append_assoc l.pending_tasks (task ∷ []) tasks

-- What epoll_wait reports of an eventfd that can be read.
abbrev pub readable : ℕ → Triggered
readable fd = record { fd = fd; epoll_in = true; epoll_out = false; epoll_err = false }

module _ (run : ℕ → EventLoop → EventLoop) (drain : ℕ) (local : Local run) where
  Steps-trans :
      {s t u : LoopThread} → Steps run drain s t → Steps run drain t u → Steps run drain s u
  Steps-trans r here = r
  Steps-trans r (next q st) = next (Steps-trans r q) st

  post_all-Steps :
      (posts : List Task) (s : LoopThread)
      → Steps run drain s (record s { loop = post_all posts s.loop })
  unfolding add_task
  post_all-Steps [] s = here
  post_all-Steps (task ∷ tasks) s =
      Steps-trans (next (next here (push task)) (write s.writing refl))
        (post_all-Steps tasks (record s { loop = add_task task true s.loop }))

  -- The tasks in hand are run, and the thread waits.
  run_tasks-Steps :
      (tasks : List Task) (s : LoopThread)
      → s.phase ≡ running tasks
      → (t : LoopThread) × Steps run drain s t
        × (t.phase ≡ waiting)
        × (t.writing ≡ s.writing)
        × (t.loop ≡ run_tasks (run_or_drain run drain) tasks s.loop)
  unfolding run_tasks
  run_tasks-Steps [] s e = (record s { phase = waiting }, next here (wait e), refl, refl, refl)
  run_tasks-Steps (task ∷ tasks) s e =
      let after : LoopThread = record s {
        loop = run_task (run_or_drain run drain) task s.loop;
        phase = running tasks;
        has_drained = s.has_drained || is_drain drain task;
      } in
      let (t, r, at_end, same_writing, same) = run_tasks-Steps tasks after refl in
      (t, Steps-trans (next here (run_first task tasks e)) r, at_end, same_writing, same)

  run_tasks-pending :
      (tasks : List Task) (l : EventLoop)
      → (run_tasks (run_or_drain run drain) tasks l).pending_tasks ≡ l.pending_tasks
  unfolding run_tasks
  run_tasks-pending [] l = refl
  run_tasks-pending (task ∷ tasks) l =
      run_tasks-pending tasks _ ∙ run_task-pending run drain local task l

  run_tasks-drained :
      (tasks : List Task) (l : EventLoop)
      → (run_tasks (run_or_drain run drain) (tasks ++ (callback (some drain) ∷ [])) l).wakeups ≡ 0
  unfolding run_tasks run_task run_or_drain drain_wakeups
  run_tasks-drained [] l = ground arith
  run_tasks-drained (task ∷ tasks) l = run_tasks-drained tasks _

  -- A thread waits in epoll_wait, and the eventfd is reported: then other threads may push tasks,
  -- any, and write to the eventfd for each of them, and the thread waits again with these tasks in
  -- its queue, and an eventfd that holds no write and is given none. So the tasks wait for another
  -- event, or for the timeout of ten seconds. (m_quit is not set; the callbacks push no task to their
  -- own loop.)
  pub Steps-lost :
      (fd : ℕ) (l : EventLoop) (posts : List Task) (drained : Bool)
      → l.quit ≡ false
      → handler in_event (l.event fd) ≡ some drain
      → (t : LoopThread) × Steps run drain
          (record { loop = l; phase = waiting; writing = 0; has_drained = drained })
          t
        × (t.phase ≡ waiting)
        × (t.writing ≡ 0)
        × (t.loop.wakeups ≡ 0)
        × (t.loop.pending_tasks ≡ posts)
  unfolding on_all_triggered on_triggered add_when on_error add_task
  Steps-lost fd l posts drained no_quit reads =
      let woken : EventLoop = on_all_triggered (readable fd ∷ []) l in
      let tasks : List Task = l.pending_tasks ++ (callback (handler in_event (l.event fd)) ∷ []) in
      let emptied : EventLoop = record woken { pending_tasks = [] } in
      let taken : LoopThread = record {
        loop = emptied;
        phase = running tasks;
        writing = 0;
        has_drained = false;
      } in
      let (t, r, at_end, none_left, same) =
        run_tasks-Steps tasks (record taken { loop = post_all posts emptied }) refl in
      (
        t,
        Steps-trans
            (Steps-trans (next (next here (return (readable fd ∷ []) refl)) (swap refl no_quit))
              (post_all-Steps posts taken))
            r,
        at_end,
        none_left,
        ap (λ m. m.wakeups) same
            ∙ subst
                (λ cb.
                  (run_tasks (run_or_drain run drain) (l.pending_tasks ++ (callback cb ∷ []))
                    (post_all posts emptied)).wakeups
                  ≡ 0)
                (sym reads) (run_tasks-drained l.pending_tasks (post_all posts emptied)),
        ap (λ m. m.pending_tasks) same
            ∙ run_tasks-pending tasks (post_all posts emptied)
            ∙ post_all-pending posts emptied,
      )
