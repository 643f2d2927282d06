-- ===== src/EventLoop/Tests.antt =====
-- A loop that listens for two file descriptors, and a round of it in which tasks push others.
use netrpc.Base.{
  ℕ, suc, ◌≡◌, ap, ok, err, exited, pos, arith, true, false, none, some, refl, List, [], ◌∷◌,
}
use mathlib.Core.List.{append_assoc}
use netrpc.FdEvent.{new_fd_event, handler, in_event}
use netrpc.EventLoop.{
  EventLoop, add_task, callback, add_later, Triggered, on_all_triggered, loop_round,
}
use netrpc.EventLoop.Tasks.{OnlyPushes, run_first, loop_round-run_first}
use netrpc.EventLoop.Epoll.{Agrees, added, deleted, change_all}
use netrpc.EventLoop.Start.{NewFds, new_event_loop, new_event_loop-change_all}

abbrev listening : EventLoop
listening = record {
  event = new_fd_event;
  listen_fds = 4 ∷ 3 ∷ [];
  pending_tasks = [];
  epoll_calls = [];
  wakeups = 0;
  quit = false;
}

abbrev new_fds : NewFds
new_fds = record { epoll_fd = pos 3; wakeup_fd = pos 4; timer_fd = 5 }

new_event_loop-change_all_example :
    (l : EventLoop) × (new_event_loop 1 2 false new_fds ≡ ok l)
    × (new_event_loop 1 2 true new_fds ≡ err exited)
    × (l.listen_fds ≡ 5 ∷ 4 ∷ [])
    × (handler in_event (l.event 4) ≡ some 1)
    × (handler in_event (l.event 5) ≡ some 2)
    × Agrees [] (change_all (added 7 ∷ added 7 ∷ deleted 5 ∷ deleted 5 ∷ []) l)
new_event_loop-change_all_example =
    new_event_loop-change_all 1 2 new_fds 3 4 (added 7 ∷ added 7 ∷ deleted 5 ∷ deleted 5 ∷ []) refl
      refl (λ same. absurd (omega arith))

-- Each callback pushes the one with the next number.
abbrev push_next : ℕ → EventLoop → EventLoop
push_next cb l = add_task (callback (some (suc cb))) false l

push_next-OnlyPushes : OnlyPushes push_next
unfolding add_task
push_next-OnlyPushes cb tasks l =
    ap (λ pending. record l { pending_tasks = pending })
      (append_assoc tasks l.pending_tasks (callback (some (suc cb)) ∷ []))

abbrev busy : EventLoop
busy = record listening { pending_tasks = callback (some 1) ∷ add_later 5 ∷ callback none ∷ [] }

abbrev readable_three : List Triggered
readable_three = record { fd = 3; epoll_in = true; epoll_out = false; epoll_err = true } ∷ []

loop_round-run_first_example :
    loop_round push_next readable_three busy
    ≡ on_all_triggered readable_three (run_first push_next 3 busy)
loop_round-run_first_example =
    loop_round-run_first push_next push_next-OnlyPushes readable_three busy
