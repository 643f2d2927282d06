-- ===== src/Log/Crash.antt =====
-- CoredumpHandler and Logger::Init of netrpc/common/log.cc: what a signal does to the two threads. A
-- signal comes while neither thread is in a round.
use netrpc.Base.{
  ◌≡◌, refl, sym, ◌∙◌, ap, ℕ, ◌==◌, Bytes, Bool, true, false, not, ◌&&◌, ◌++◌, codes, ℤ, Result, ok,
  err, out_of_fuel, ◌>>=◌, Option, none, some, List, [], ◌∷◌, if_both, if◌then◌else◌, arith,
}
use netrpc.Config.{Config}
use netrpc.Log.{
  AsyncLogger, Logger, LogLevel, unknown, debug, info, error, level_value, string_to_log_level,
  new_async_logger, round_with, take_buffer, loop, flush, sync_loop, sync_buffer, push_log_buffer,
  push_log, log_at, stop,
}
use netrpc.Log.Stream.{round_with_lem}
use netrpc.Log.Rounds.{run_rounds, run_rounds-ended, loop-take}

-- Logger::Init, with the interval of the timer event of syncLoop that it adds. A client's Logger gets
-- no threads.
unfoldable pub init_logger : ℕ → Config → Logger → Logger × Option ℤ
init_logger type config l =
    let leveled = record l { set_level = string_to_log_level config.log_level; type = type } in
    let threaded = record leveled {
      asnyc_logger =
          new_async_logger (config.log_file_name ++ codes "_rpc") config.log_file_path
            config.log_max_file_size;
      asnyc_app_logger =
          new_async_logger (config.log_file_name ++ codes "_app") config.log_file_path
            config.log_max_file_size;
    } in
    if type == 0 then (leveled, none) else (threaded, some config.log_sync_interval)

-- pthread_join of the thread, which has some rounds left: it waits where the thread has not returned
-- in them.
unfoldable pub join_thread : List (Bytes × ℤ) → AsyncLogger → Result AsyncLogger
join_thread rounds a =
    let after = run_rounds rounds a in if after.is_running then err out_of_fuel else ok after

-- CoredumpHandler, up to the signal that it raises again.
unfoldable pub coredump_handler :
    Bytes → List (Bytes × ℤ) → List (Bytes × ℤ) → Logger → Result Logger
coredump_handler line rounds app_rounds l = do
  let flushed = flush (log_at error line l)
  a ← join_thread rounds flushed.asnyc_logger
  b ← join_thread app_rounds flushed.asnyc_app_logger
  ok (record flushed { asnyc_logger = a; asnyc_app_logger = b })

abbrev pub is_empty {ℓ} : {A : Type ℓ} → List A → Bool
is_empty [] = true
is_empty (x ∷ xs) = false

abbrev pub is_ok {ℓ} : {A : Type ℓ} → Result A → Bool
is_ok (ok a) = true
is_ok (err e) = false

-- A thread that waits on an empty queue stays there.
run_rounds-empty :
    (rounds : List (Bytes × ℤ)) (a : AsyncLogger) → a.buffer ≡ [] → run_rounds rounds a ≡ a
unfolding run_rounds loop take_buffer
run_rounds-empty [] a e = refl
run_rounds-empty ((now, position) ∷ rounds) a e =
    ap (run_rounds rounds) (
      ap (λ q. if a.is_running then take_buffer now position q a else a) e
      ∙ if_both (λ b. b ≡ a) a.is_running refl refl)
    ∙ run_rounds-empty rounds a e

-- A stopped thread returns in its first round, if there is a buffer for it.
run_rounds-join :
    (now : Bytes) (position : ℤ) (rounds : List (Bytes × ℤ)) (a : AsyncLogger)
    → a.is_running ≡ true
    → a.stop_flag ≡ true
    → (run_rounds ((now, position) ∷ rounds) a).is_running ≡ is_empty a.buffer
unfolding run_rounds
run_rounds-join now position rounds a r s = by_queue a.buffer refl
  where
    by_queue :
        (queue : List (List Bytes))
        → a.buffer ≡ queue
        → (run_rounds ((now, position) ∷ rounds) a).is_running ≡ is_empty a.buffer
    by_queue [] e =
        ap (λ b. b.is_running) (run_rounds-empty ((now, position) ∷ rounds) a e)
        ∙ r
        ∙ sym (ap is_empty e)
    by_queue (tmp ∷ queue) e =
        let b : AsyncLogger = round_with now position tmp (record a { buffer = queue }) in
        let (_, _, _, r') = round_with_lem now position tmp (record a { buffer = queue }) in
        let ended : b.is_running ≡ false = r' ∙ ap not s in
        ap (λ c. c.is_running)
          (ap (run_rounds rounds) (loop-take now position tmp queue a r e)
            ∙ run_rounds-ended rounds b ended)
        ∙ ended
        ∙ sym (ap is_empty e)

-- What flush leaves in the queue of a thread is empty where both the queue and the Logger's buffer
-- were.
sync_buffer-is_empty :
    (texts : List Bytes) (a : AsyncLogger)
    → (is_empty (stop (sync_buffer texts a)).buffer ≡ (is_empty a.buffer && is_empty texts))
      × ((stop (sync_buffer texts a)).is_running ≡ a.is_running)
      × ((stop (sync_buffer texts a)).stop_flag ≡ true)
unfolding stop sync_buffer push_log_buffer
sync_buffer-is_empty [] a = (ground arith, refl, refl)
sync_buffer-is_empty (text ∷ texts) a = (by_queue a.buffer, refl, refl)
  where
    by_queue :
        (queue : List (List Bytes))
        → is_empty (queue ++ ((text ∷ texts) ∷ [])) ≡ (is_empty queue && false)
    by_queue [] = refl
    by_queue (tmp ∷ queue) = refl

-- A thread that is joined behind flush, by whether there was a line for it.
join-flushed :
    (now : Bytes) (position : ℤ) (rounds : List (Bytes × ℤ)) (texts : List Bytes) (a : AsyncLogger)
    → a.is_running ≡ true
    → is_ok (join_thread ((now, position) ∷ rounds) (stop (sync_buffer texts a)))
      ≡ not (is_empty a.buffer && is_empty texts)
unfolding join_thread
join-flushed now position rounds texts a r =
    let b : AsyncLogger = stop (sync_buffer texts a) in
    let (e, r', s') = sync_buffer-is_empty texts a in
    let ran : (run_rounds ((now, position) ∷ rounds) b).is_running
        ≡ (is_empty a.buffer && is_empty texts) =
      run_rounds-join now position rounds b (r' ∙ r) s' ∙ e in
    by_flag (run_rounds ((now, position) ∷ rounds) b).is_running
      (run_rounds ((now, position) ∷ rounds) b)
    ∙ ap not ran
  where
    by_flag : (b : Bool) (c : AsyncLogger) → is_ok (if b then err out_of_fuel else ok c) ≡ not b
    by_flag true c = refl
    by_flag false c = refl

some_line :
    {A : Type 0} (b : Bool) (xs : List A) (x : A) → not (b && is_empty (xs ++ (x ∷ []))) ≡ true
some_line true [] x = refl
some_line false [] x = refl
some_line true (y ∷ ys) x = refl
some_line false (y ∷ ys) x = refl

log_at-error :
    (line : Bytes) (l : Logger)
    → (l.type == 0) ≡ false
    → log_at error line l ≡ record l { buffer = l.buffer ++ (line ∷ []) }
unfolding log_at push_log level_value
log_at-error line l server = by_level l.set_level refl
  where
    by_level :
        (level : LogLevel)
        → l.set_level ≡ level
        → log_at error line l ≡ record l { buffer = l.buffer ++ (line ∷ []) }
    by_level unknown e = rw (e, log_at) (rw (server, push_log) refl)
    by_level debug e = rw (e, log_at) (rw (server, push_log) refl)
    by_level info e = rw (e, log_at) (rw (server, push_log) refl)
    by_level error e = rw (e, log_at) (rw (server, push_log) refl)

-- On a server whose two threads run, and whatever rounds they have, one at least: the handler of a
-- signal gets past its two joins exactly where a line is waiting for the application's log, in its
-- queue or in the Logger's buffer. Where none is, that thread goes on waiting for one, and the
-- process does not end. (The handler's own line lets the other thread return.)
pub coredump_handler-returns :
    (line now now' : Bytes) (position position' : ℤ) (rounds rounds' : List (Bytes × ℤ))
    (l : Logger)
    → (l.type == 0) ≡ false
    → l.asnyc_logger.is_running ≡ true
    → l.asnyc_app_logger.is_running ≡ true
    → is_ok (coredump_handler line ((now, position) ∷ rounds) ((now', position') ∷ rounds') l)
      ≡ not (is_empty l.asnyc_app_logger.buffer && is_empty l.app_buffer)
unfolding coredump_handler flush sync_loop
coredump_handler-returns line now now' position position' rounds rounds' l server r r' =
    rw (log_at-error line l server) (
      both
        (join_thread ((now, position) ∷ rounds)
          (stop (sync_buffer (l.buffer ++ (line ∷ [])) l.asnyc_logger)))
        (join_thread ((now', position') ∷ rounds')
          (stop (sync_buffer l.app_buffer l.asnyc_app_logger)))
        _
        (join-flushed now position rounds (l.buffer ++ (line ∷ [])) l.asnyc_logger r
          ∙ some_line (is_empty l.asnyc_logger.buffer) l.buffer line)
        (join-flushed now' position' rounds' l.app_buffer l.asnyc_app_logger r'))
  where
    both :
        (a b : Result AsyncLogger) (f : AsyncLogger → AsyncLogger → Logger) {waits : Bool}
        → is_ok a ≡ true
        → is_ok b ≡ waits
        → is_ok (a >>= λ c. b >>= λ d. ok (f c d)) ≡ waits
    both (ok c) (ok d) f h k = k
    both (ok c) (err e) f h k = k
    both (err e) b f h k = cc
