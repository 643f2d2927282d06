-- ===== src/Log/Rounds.antt =====
-- The thread of an AsyncLogger over its rounds, up to an empty queue, or stopped.
use mathlib.Core.List.{append_assoc, append-nil}
use netrpc.Base.{
  ◌≡◌, refl, sym, ◌∙◌, ap, Bytes, true, false, not, ℤ, List, [], ◌∷◌, ◌++◌, length, if◌then◌else◌,
  arith,
}
use netrpc.Log.{
  AsyncLogger, Logger, round_with, take_buffer, loop, flush, sync_loop, sync_buffer,
  push_log_buffer, stop,
}
use netrpc.Log.Stream.{
  concat, concat_queue, written, async_stream, concat_queue-append, round_with_lem,
}

-- Rounds of the thread, each with its date and what ftell says.
unfoldable pub run_rounds : List (Bytes × ℤ) → AsyncLogger → AsyncLogger
run_rounds [] a = a
run_rounds ((now, position) ∷ rounds) a = run_rounds rounds (loop now position a)

pub loop-take :
    (now : Bytes) (position : ℤ) (tmp : List Bytes) (queue : List (List Bytes)) (a : AsyncLogger)
    → a.is_running ≡ true
    → a.buffer ≡ tmp ∷ queue
    → loop now position a ≡ round_with now position tmp (record a { buffer = queue })
unfolding loop take_buffer
loop-take now position tmp queue a r q =
    ap (λ b. if b then take_buffer now position a.buffer a else a) r
    ∙ ap (λ b. take_buffer now position b a) q

-- A thread that is not stopped writes its whole queue, in as many rounds as there are buffers.
drained :
    (rounds : List (Bytes × ℤ)) (queue : List (List Bytes)) (a : AsyncLogger)
    → a.is_running ≡ true
    → a.stop_flag ≡ false
    → a.buffer ≡ queue
    → length rounds ≡ length queue
    → (written (run_rounds rounds a).writes ≡ written a.writes ++ concat_queue queue)
      × ((run_rounds rounds a).buffer ≡ [])
unfolding run_rounds
drained [] [] a r s q n = (sym (append-nil (written a.writes)), q)
drained [] (tmp ∷ queue) a r s q n = absurd (omega (arith, n))
drained (_ ∷ rounds) [] a r s q n = absurd (omega (arith, n))
drained ((now, position) ∷ rounds) (tmp ∷ queue) a r s q n =
    let b : AsyncLogger = round_with now position tmp (record a { buffer = queue }) in
    let (w, q', s', r') = round_with_lem now position tmp (record a { buffer = queue }) in
    let (w'', q'') = drained rounds queue b (r' ∙ ap not s) (s' ∙ s) q' (omega (arith, n)) in
    let same : run_rounds rounds (loop now position a) ≡ run_rounds rounds b =
      ap (run_rounds rounds) (loop-take now position tmp queue a r q) in
    (
      ap (λ c. written c.writes) same
          ∙ w''
          ∙ ap (λ x. x ++ concat_queue queue) w
          ∙ append_assoc (written a.writes) (concat tmp) (concat_queue queue),
      ap (λ c. c.buffer) same ∙ q'',
    )

-- A thread that runs and is not stopped writes all that its AsyncLogger has been given, and empties
-- the queue, in as many rounds as the queue has buffers, whatever the dates and the files' sizes.
pub run_rounds-stream :
    (rounds : List (Bytes × ℤ)) (a : AsyncLogger)
    → a.is_running ≡ true
    → a.stop_flag ≡ false
    → length rounds ≡ length a.buffer
    → (written (run_rounds rounds a).writes ≡ async_stream a) × ((run_rounds rounds a).buffer ≡ [])
run_rounds-stream rounds a r s n = drained rounds a.buffer a r s refl n

loop-ended :
    (now : Bytes) (position : ℤ) (a : AsyncLogger) → a.is_running ≡ false → loop now position a ≡ a
unfolding loop
loop-ended now position a r = ap (λ b. if b then take_buffer now position a.buffer a else a) r

pub run_rounds-ended :
    (rounds : List (Bytes × ℤ)) (a : AsyncLogger) → a.is_running ≡ false → run_rounds rounds a ≡ a
unfolding run_rounds
run_rounds-ended [] a r = refl
run_rounds-ended ((now, position) ∷ rounds) a r =
    ap (run_rounds rounds) (loop-ended now position a r) ∙ run_rounds-ended rounds a r

-- A stopped thread that still runs takes one more buffer.
run_rounds-stopped :
    (now : Bytes) (position : ℤ) (rounds : List (Bytes × ℤ)) (tmp : List Bytes)
    (queue : List (List Bytes)) (a : AsyncLogger)
    → a.is_running ≡ true
    → a.stop_flag ≡ true
    → a.buffer ≡ tmp ∷ queue
    → (written (run_rounds ((now, position) ∷ rounds) a).writes ≡ written a.writes ++ concat tmp)
      × ((run_rounds ((now, position) ∷ rounds) a).buffer ≡ queue)
unfolding run_rounds
run_rounds-stopped now position rounds tmp queue a r s q =
    let b : AsyncLogger = round_with now position tmp (record a { buffer = queue }) in
    let (w, q', _, r') = round_with_lem now position tmp (record a { buffer = queue }) in
    let same : run_rounds rounds (loop now position a) ≡ b =
      ap (run_rounds rounds) (loop-take now position tmp queue a r q)
      ∙ run_rounds-ended rounds b (r' ∙ ap not s) in
    (ap (λ c. written c.writes) same ∙ w, ap (λ c. c.buffer) same ∙ q')

flush-queue :
    (texts : List Bytes) (tmp : List Bytes) (queue : List (List Bytes)) (a : AsyncLogger)
    → a.buffer ≡ tmp ∷ queue
    → (more : List (List Bytes)) × ((stop (sync_buffer texts a)).buffer ≡ tmp ∷ (queue ++ more))
      × (concat_queue more ≡ concat texts)
      × ((stop (sync_buffer texts a)).writes ≡ a.writes)
      × ((stop (sync_buffer texts a)).is_running ≡ a.is_running)
unfolding stop sync_buffer push_log_buffer
flush-queue [] tmp queue a q = ([], q ∙ ap (◌∷◌ tmp) (sym (append-nil queue)), refl, refl, refl)
flush-queue (text ∷ texts) tmp queue a q =
    ((text ∷ texts) ∷ [], ap (λ b. b ++ ((text ∷ texts) ∷ [])) q, append-nil _, refl, refl)

stop-stop_flag : (a : AsyncLogger) → (stop a).stop_flag ≡ true
unfolding stop
stop-stop_flag a = refl

-- After flush, a thread that still runs writes the oldest buffer of its queue and returns: however
-- many rounds it is given, the later buffers and what the Logger's buffer held stay in the queue.
pub flush-run_rounds :
    (now : Bytes) (position : ℤ) (rounds : List (Bytes × ℤ)) (tmp : List Bytes)
    (queue : List (List Bytes)) (l : Logger)
    → l.asnyc_logger.is_running ≡ true
    → l.asnyc_logger.buffer ≡ tmp ∷ queue
    → (written (run_rounds ((now, position) ∷ rounds) (flush l).asnyc_logger).writes
        ≡ written l.asnyc_logger.writes ++ concat tmp)
      × (concat_queue (run_rounds ((now, position) ∷ rounds) (flush l).asnyc_logger).buffer
          ≡ concat_queue queue ++ concat l.buffer)
unfolding flush sync_loop
flush-run_rounds now position rounds tmp queue l r q =
    let (more, q', m, w', r') = flush-queue l.buffer tmp queue l.asnyc_logger q in
    let (w, left) =
      run_rounds-stopped now position rounds tmp (queue ++ more)
        (stop (sync_buffer l.buffer l.asnyc_logger)) (r' ∙ r)
        (stop-stop_flag (sync_buffer l.buffer l.asnyc_logger)) q' in
    (
      w ∙ ap (λ x. written x ++ concat tmp) w',
      ap concat_queue left ∙ concat_queue-append queue more ∙ ap (◌++◌ (concat_queue queue)) m,
    )
