-- ===== src/IoThread/Tests.antt =====
-- An IOThread that is made and started, and then destroyed in its loop.
use netrpc.Base.{◌≡◌, ◌≤◌, ◌<◌, ◌⊎◌, refl, true, false}
use netrpc.IoThread.{
  IoThread, Main, Owner, new_io_thread, create, make_loop, post_init, wait_init, start, destroy,
  wait_start, end_loop, destroyed, Steps, here, next,
}
use netrpc.IoThread.Life.{depth, Steps-outside, Steps-gone}

abbrev begun : IoThread
begun = record {
  main = Main.waiting;
  owner = Owner.outside;
  init_semaphore = 0;
  start_semaphore = 1;
  has_semaphores = true;
  has_loop = true;
  quit = false;
  is_undefined = false;
  starts = 1;
}

begun-Steps : Steps new_io_thread begun
unfolding new_io_thread
begun-Steps =
    next
      (next (next (next (next here (create refl)) (make_loop refl)) (post_init refl))
        (wait_init 0 refl refl))
      (start refl)

Steps-outside_example :
    (begun.has_loop ≡ true) × (2 ≤ depth begun.main) × ((depth begun.main ≡ 2) ⊎ (0 < begun.starts))
Steps-outside_example = Steps-outside begun-Steps refl

-- It is destroyed in its loop.
abbrev ended : IoThread
ended = record begun {
  start_semaphore = 0;
  main = Main.returned;
  owner = Owner.gone;
  quit = true;
  has_semaphores = false;
  has_loop = false;
}

ended-Steps : Steps new_io_thread ended
ended-Steps =
    next
      (next (next (next begun-Steps (wait_start 0 refl refl refl)) (destroy refl))
        (end_loop refl refl))
      (destroyed refl refl)

Steps-gone_example :
    (ended.main ≡ Main.returned) × ((0 < ended.starts) ⊎ (ended.is_undefined ≡ true))
Steps-gone_example = Steps-gone ended-Steps refl
