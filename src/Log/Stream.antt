-- ===== src/Log/Stream.antt =====
-- Every line that is logged goes through the buffers to the files once, in order.
use mathlib.Core.List.{append_assoc, append-nil}
use netrpc.Base.{
  ◌≡◌, refl, sym, ◌∙◌, ap, Bytes, true, not, ℤ, Option, List, [], ◌∷◌, ◌++◌, Bool-cases, inl, inr,
  if_both, if◌then◌else◌,
}
use netrpc.StdMap.{bytes_eq, bytes_eq_iff}
use netrpc.Log.{
  AsyncLogger, turn_date, log_file_name, reopen, roll, write_logs, return_if_stopped, round_with,
  take_buffer, loop, push_log_buffer, sync_buffer,
}

-- The texts one behind the other.
abbrev pub concat : List Bytes → Bytes
concat [] = []
concat (text ∷ texts) = text ++ concat texts

abbrev pub concat_queue : List (List Bytes) → Bytes
concat_queue [] = []
concat_queue (vec ∷ vecs) = concat vec ++ concat_queue vecs

-- What has been written to the files, in order.
abbrev pub written : List (Option Bytes × Bytes) → Bytes
written [] = []
written ((_, text) ∷ ws) = text ++ written ws

-- What an AsyncLogger has been given.
abbrev pub async_stream : AsyncLogger → Bytes
async_stream a = written a.writes ++ concat_queue a.buffer

concat-append : (xs ys : List Bytes) → concat (xs ++ ys) ≡ concat xs ++ concat ys
concat-append [] ys = refl
concat-append (x ∷ xs) ys =
    ap (◌++◌ x) (concat-append xs ys) ∙ sym (append_assoc x (concat xs) (concat ys))

pub concat_queue-append :
    (xs ys : List (List Bytes)) → concat_queue (xs ++ ys) ≡ concat_queue xs ++ concat_queue ys
concat_queue-append [] ys = refl
concat_queue-append (x ∷ xs) ys =
    ap (◌++◌ (concat x)) (concat_queue-append xs ys)
    ∙ sym (append_assoc (concat x) (concat_queue xs) (concat_queue ys))

written-append :
    (xs ys : List (Option Bytes × Bytes)) → written (xs ++ ys) ≡ written xs ++ written ys
written-append [] ys = refl
written-append ((f, x) ∷ xs) ys =
    ap (◌++◌ x) (written-append xs ys) ∙ sym (append_assoc x (written xs) (written ys))

-- A change of an AsyncLogger that leaves its queue, its writes, and whether it stops.
abbrev pub SameStream : AsyncLogger → AsyncLogger → Type 0
SameStream a b =
    (a.writes ≡ b.writes)
    × (a.buffer ≡ b.buffer)
    × (a.stop_flag ≡ b.stop_flag)
    × (a.is_running ≡ b.is_running)

turn_date-SameStream : (now : Bytes) (a : AsyncLogger) → SameStream (turn_date now a) a
unfolding turn_date
turn_date-SameStream now a = if_both (λ b. SameStream b a) _ dated dated
  where
    dated :
        SameStream
          (if not (bytes_eq now a.date)
            then record a { no = 0; reopen_flag = true; date = now }
            else a)
          a
    dated =
        if_both (λ b. SameStream b a) (not (bytes_eq now a.date)) (refl, refl, refl, refl)
          (refl, refl, refl, refl)

reopen-SameStream : (name : Bytes) (a : AsyncLogger) → SameStream (reopen name a) a
unfolding reopen
reopen-SameStream name a =
    if_both (λ b. SameStream b a) a.reopen_flag (refl, refl, refl, refl) (refl, refl, refl, refl)

roll-SameStream :
    (position : ℤ) (name : Bytes) (a : AsyncLogger) → SameStream (roll position name a) a
unfolding roll
roll-SameStream position name a =
    if_both (λ b. SameStream b a) _ (refl, refl, refl, refl) (refl, refl, refl, refl)

-- What writing the texts makes of an AsyncLogger.
abbrev pub Wrote : List Bytes → AsyncLogger → AsyncLogger → Type 0
Wrote texts b a =
    (written b.writes ≡ written a.writes ++ concat texts)
    × (b.buffer ≡ a.buffer)
    × (b.stop_flag ≡ a.stop_flag)
    × (b.is_running ≡ a.is_running)

Wrote-cons :
    (text : Bytes) (texts : List Bytes) (a b c : AsyncLogger)
    → Wrote (text ∷ []) b a
    → Wrote texts c b
    → Wrote (text ∷ texts) c a
Wrote-cons text texts a b c (w, q, s, r) (w', q', s', r') = (
  w'
      ∙ ap (λ x. x ++ concat texts) w
      ∙ append_assoc (written a.writes) (text ++ []) (concat texts)
      ∙ ap (λ x. written a.writes ++ (x ++ concat texts)) (append-nil text),
  q' ∙ q,
  s' ∙ s,
  r' ∙ r,
)

abbrev with_text : Bytes → AsyncLogger → AsyncLogger
with_text text a = record a { writes = a.writes ++ ((a.file_handler, text) ∷ []) }

Wrote-empty : (text : Bytes) (a : AsyncLogger) → text ≡ [] → Wrote (text ∷ []) a a
Wrote-empty text a e = (
  sym (ap (λ x. written a.writes ++ (x ++ [])) e ∙ append-nil (written a.writes)),
  refl,
  refl,
  refl,
)

write_one :
    (text : Bytes) (a : AsyncLogger)
    → Wrote (text ∷ []) (if bytes_eq text [] then a else with_text text a) a
write_one text a = elim (Bool-cases (bytes_eq text [])) [
  | inl e ↦ rw e (Wrote-empty text a ((bytes_eq_iff text []).0 e))
  | inr e ↦ rw e (written-append a.writes ((a.file_handler, text) ∷ []), refl, refl, refl)
]

write_logs-Wrote : (texts : List Bytes) (a : AsyncLogger) → Wrote texts (write_logs texts a) a
unfolding write_logs
write_logs-Wrote [] a = (sym (append-nil (written a.writes)), refl, refl, refl)
write_logs-Wrote (text ∷ texts) a =
    let b : AsyncLogger = if bytes_eq text [] then a else with_text text a in
    Wrote-cons text texts a b (write_logs texts b) (write_one text a) (write_logs-Wrote texts b)

-- The file that a round writes to is chosen without touching the stream.
SameStream-trans : (a b c : AsyncLogger) → SameStream a b → SameStream b c → SameStream a c
SameStream-trans a b c (w, q, s, r) (w', q', s', r') = (w ∙ w', q ∙ q', s ∙ s', r ∙ r')

abbrev opened : Bytes → ℤ → AsyncLogger → AsyncLogger
opened now position a =
    let turned = turn_date now a in
    let name = log_file_name turned in roll position name (reopen name turned)

opened-SameStream :
    (now : Bytes) (position : ℤ) (a : AsyncLogger) → SameStream (opened now position a) a
opened-SameStream now position a =
    let turned : AsyncLogger = turn_date now a in
    let name : Bytes = log_file_name turned in
    SameStream-trans (opened now position a) (reopen name turned) a
      (roll-SameStream position name (reopen name turned))
      (SameStream-trans (reopen name turned) turned a (reopen-SameStream name turned)
        (turn_date-SameStream now a))

-- A round writes its buffer behind what was written, leaves the queue, and runs on unless stopped.
pub round_with_lem :
    (now : Bytes) (position : ℤ) (tmp : List Bytes) (a : AsyncLogger)
    → (written (round_with now position tmp a).writes ≡ written a.writes ++ concat tmp)
      × ((round_with now position tmp a).buffer ≡ a.buffer)
      × ((round_with now position tmp a).stop_flag ≡ a.stop_flag)
      × ((round_with now position tmp a).is_running ≡ not a.stop_flag)
unfolding round_with return_if_stopped
round_with_lem now position tmp a =
    let (w, q, s, _) = opened-SameStream now position a in
    let (w', q', s', _) = write_logs-Wrote tmp (opened now position a) in
    (w' ∙ ap (λ x. written x ++ concat tmp) w, q' ∙ q, s' ∙ s, ap not (s' ∙ s))

pub loop-stream :
    (now : Bytes) (position : ℤ) (a : AsyncLogger)
    → async_stream (loop now position a) ≡ async_stream a
unfolding loop take_buffer
loop-stream now position a =
    if_both (λ b. async_stream b ≡ async_stream a) a.is_running (taken a.buffer refl) refl
  where
    taken :
        (queue : List (List Bytes))
        → a.buffer ≡ queue
        → async_stream (take_buffer now position queue a) ≡ async_stream a
    taken [] e = refl
    taken (tmp ∷ queue) e =
        let (w, q, _, _) = round_with_lem now position tmp (record a { buffer = queue }) in
        ap
          (λ x.
            x ++ concat_queue (round_with now position tmp (record a { buffer = queue })).buffer)
          w
        ∙ ap (λ x. (written a.writes ++ concat tmp) ++ concat_queue x) q
        ∙ append_assoc (written a.writes) (concat tmp) (concat_queue queue)
        ∙ ap (λ x. written a.writes ++ concat_queue x) (sym e)

-- What a Logger has been given for one of its files: what the AsyncLogger has, and the buffer.
abbrev pub sink_stream : AsyncLogger → List Bytes → Bytes
sink_stream a texts = async_stream a ++ concat texts

pub sync_buffer-stream :
    (a : AsyncLogger) (texts : List Bytes)
    → sink_stream (sync_buffer texts a) [] ≡ sink_stream a texts
unfolding sync_buffer push_log_buffer
sync_buffer-stream a [] = refl
sync_buffer-stream a (text ∷ texts) =
    let all : List Bytes = text ∷ texts in
    append-nil (written a.writes ++ concat_queue (a.buffer ++ (all ∷ [])))
    ∙ ap (◌++◌ (written a.writes)) (
        concat_queue-append a.buffer (all ∷ [])
        ∙ ap (◌++◌ (concat_queue a.buffer)) (append-nil (concat all)))
    ∙ sym (append_assoc (written a.writes) (concat_queue a.buffer) (concat all))

pub sink_stream-push :
    (a : AsyncLogger) (texts : List Bytes) (line : Bytes)
    → sink_stream a (texts ++ (line ∷ [])) ≡ sink_stream a texts ++ line
sink_stream-push a texts line =
    ap (◌++◌ (async_stream a))
      (concat-append texts (line ∷ []) ∙ ap (◌++◌ (concat texts)) (append-nil line))
    ∙ sym (append_assoc (async_stream a) (concat texts) line)
