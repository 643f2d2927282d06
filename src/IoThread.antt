-- ===== src/IoThread.antt =====
-- IOThread of netrpc/net/io_thread.{h,cc}: the thread that runs Main, and the thread that makes the
-- IOThread, starts it, joins it and destroys it, in steps. A semaphore is its value; pthread_join
-- returns when Main has.
pub mod Life
mod Tests
use netrpc.Base.{ℕ, suc, ◌≡◌, Bool, true, false}

-- Where Main stands: the thread is not created; before `new EventLoop`; before the post of the first
-- semaphore; in the wait for the second; in loop; it has returned.
pub data Main : Type 0 where
  unborn making posting waiting looping returned : Main

-- Where the owner stands: before pthread_create; in sem_wait of the constructor; outside; in join; in
-- the destructor, before its pthread_join returns; behind the destructor.
pub data Owner : Type 0 where
  creating constructing outside joining destroying gone : Owner

pub record IoThread : Type 0 where
  pub main : Main
  pub owner : Owner
  pub init_semaphore : ℕ
  pub start_semaphore : ℕ
  -- the semaphores have not been destroyed
  pub has_semaphores : Bool
  -- m_eventloop is not null, and has not been deleted
  pub has_loop : Bool
  -- m_quit of the loop
  pub quit : Bool
  -- Main has come out of a wait on a destroyed semaphore
  pub is_undefined : Bool
  -- the calls of start
  pub starts : ℕ

unfoldable pub new_io_thread : IoThread
new_io_thread = record {
  main = Main.unborn;
  owner = Owner.creating;
  init_semaphore = 0;
  start_semaphore = 0;
  has_semaphores = true;
  has_loop = false;
  quit = false;
  is_undefined = false;
  starts = 0;
}

-- loop may return once m_quit is set, which anyone who has the loop may do. Of a wait on a semaphore
-- that has been destroyed POSIX says nothing: Main may stay in it, or go on to its loop.
pub data Step (s : IoThread) : IoThread → Type 0 where
  create :
      s.owner ≡ Owner.creating
      → Step s (record s { owner = Owner.constructing; main = Main.making })
  make_loop : s.main ≡ Main.making → Step s (record s { has_loop = true; main = Main.posting })
  post_init :
      s.main ≡ Main.posting
      → Step s (record s { init_semaphore = suc s.init_semaphore; main = Main.waiting })
  wait_init :
      (n : ℕ)
      → s.owner ≡ Owner.constructing
      → s.init_semaphore ≡ suc n
      → Step s (record s { init_semaphore = n; owner = Owner.outside })
  start :
      s.owner ≡ Owner.outside
      → Step s (record s { start_semaphore = suc s.start_semaphore; starts = suc s.starts })
  wait_start :
      (n : ℕ)
      → s.main ≡ Main.waiting
      → s.has_semaphores ≡ true
      → s.start_semaphore ≡ suc n
      → Step s (record s { start_semaphore = n; main = Main.looping })
  wait_destroyed :
      s.main ≡ Main.waiting
      → s.has_semaphores ≡ false
      → Step s (record s { main = Main.looping; is_undefined = true })
  stop : s.has_loop ≡ true → Step s (record s { quit = true })
  end_loop : s.main ≡ Main.looping → s.quit ≡ true → Step s (record s { main = Main.returned })
  join : s.owner ≡ Owner.outside → Step s (record s { owner = Owner.joining })
  joined :
      s.owner ≡ Owner.joining → s.main ≡ Main.returned → Step s (record s { owner = Owner.outside })
  destroy :
      s.owner ≡ Owner.outside
      → Step s (record s { owner = Owner.destroying; quit = true; has_semaphores = false })
  destroyed :
      s.owner ≡ Owner.destroying
      → s.main ≡ Main.returned
      → Step s (record s { owner = Owner.gone; has_loop = false })

pub data Steps (s : IoThread) : IoThread → Type 0 where
  here : Steps s s
  next : {t u : IoThread} → Steps s t → Step t u → Steps s u
