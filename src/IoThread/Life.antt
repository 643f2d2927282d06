-- ===== src/IoThread/Life.antt =====
-- The orders that the two semaphores and pthread_join bring about.
use netrpc.Base.{ℕ, ◌≤◌, ◌<◌, ◌≡◌, ◌≢◌, ◌⊎◌, refl, true, false, arith}
use netrpc.IoThread.{
  IoThread, Main, Owner, new_io_thread, Step, create, make_loop, post_init, wait_init, start,
  wait_start, wait_destroyed, stop, end_loop, join, joined, destroy, destroyed, Steps, here, next,
}

-- How far Main is: 0 before it has a loop, 1 before its first post, 2 in front of loop, 3 in it, and 4
-- behind it.
abbrev pub depth : Main → ℕ
depth Main.unborn = 0
depth Main.making = 0
depth Main.posting = 1
depth Main.waiting = 2
depth Main.looping = 3
depth Main.returned = 4

abbrev Constructed : Owner → Type 0
Constructed Owner.creating = ⊥
Constructed Owner.constructing = ⊥
Constructed _ = Unit {0}

record IsSound (s : IoThread) : Type 0 where
  unborn : s.owner ≡ Owner.creating → s.main ≡ Main.unborn
  loop_made : 1 ≤ depth s.main → s.owner ≢ Owner.gone → s.has_loop ≡ true
  init_posted : 0 < s.init_semaphore → 2 ≤ depth s.main
  constructed : Constructed s.owner → 2 ≤ depth s.main
  started : 3 ≤ depth s.main → (0 < s.starts) ⊎ (s.is_undefined ≡ true)
  destroyed_late : s.has_semaphores ≡ false → (s.owner ≡ Owner.destroying) ⊎ (s.owner ≡ Owner.gone)
  undefined_late : s.is_undefined ≡ true → s.has_semaphores ≡ false
  counted : s.start_semaphore ≤ s.starts
  told : s.owner ≡ Owner.destroying → s.quit ≡ true
  freed : s.owner ≡ Owner.destroying → s.has_semaphores ≡ false
  ended : s.owner ≡ Owner.gone → s.main ≡ Main.returned

Step-IsSound : {s t : IoThread} → Step s t → IsSound s → IsSound t
Step-IsSound (create a) h = ground arith
Step-IsSound (make_loop a) h = ground arith
Step-IsSound (post_init a) h = ground arith
Step-IsSound (wait_init n a b) h = ground arith
Step-IsSound (start a) h = ground arith
Step-IsSound (wait_start n a b c) h = ground arith
Step-IsSound (wait_destroyed a b) h = ground arith
Step-IsSound (stop a) h = ground arith
Step-IsSound (end_loop a b) h = ground arith
Step-IsSound (join a) h = ground arith
Step-IsSound (joined a b) h = ground arith
Step-IsSound (destroy a) h = ground arith
Step-IsSound (destroyed a b) h = ground arith

Steps-IsSound : {s : IoThread} → Steps new_io_thread s → IsSound s
unfolding new_io_thread
Steps-IsSound here = ground arith
Steps-IsSound (next r st) = Step-IsSound st (Steps-IsSound r)

-- Whatever the two threads do, and in whatever order: while the owner is outside the constructor,
-- join and the destructor, the IOThread has its event loop, which getEventLoop returns, and Main
-- stands behind its first post; and Main is in loop, or behind it, only where start has been called.
pub Steps-outside :
    {s : IoThread}
    → Steps new_io_thread s
    → s.owner ≡ Owner.outside
    → (s.has_loop ≡ true) × (2 ≤ depth s.main) × ((depth s.main ≡ 2) ⊎ (0 < s.starts))
Steps-outside r e =
    let h = Steps-IsSound r in
    ground (arith, h.constructed, h.loop_made, h.started, h.destroyed_late, h.undefined_late)

-- Whatever the two threads do, and in whatever order: the destructor of an IOThread returns only where
-- Main has returned, so no thread runs on the loop that it deletes; and only where start has been
-- called, or where Main has come out of a wait on the semaphore that the destructor has destroyed,
-- which POSIX leaves undefined.
pub Steps-gone :
    {s : IoThread}
    → Steps new_io_thread s
    → s.owner ≡ Owner.gone
    → (s.main ≡ Main.returned) × ((0 < s.starts) ⊎ (s.is_undefined ≡ true))
Steps-gone r e = let h = Steps-IsSound r in ground (arith, h.ended, h.started)

-- Where the destructor begins behind Main's wait for start, it can return: it has told the loop to.
pub Steps-late :
    {s : IoThread}
    → Steps new_io_thread s
    → s.owner ≡ Owner.destroying
    → 3 ≤ depth s.main
    → (t : IoThread) × Steps s t × (t.owner ≡ Owner.gone) × (t.has_loop ≡ false)
Steps-late {s} r e late = by_main s.main refl
  where
    h : IsSound s
    h = Steps-IsSound r

    by_main :
        (m : Main)
        → s.main ≡ m
        → (t : IoThread) × Steps s t × (t.owner ≡ Owner.gone) × (t.has_loop ≡ false)
    by_main Main.returned at = (_, next here (destroyed e at), refl, refl)
    by_main Main.looping at =
        (_, next (next here (end_loop at (h.told e))) (destroyed e refl), refl, refl)
    by_main m at = absurd (ground arith)
