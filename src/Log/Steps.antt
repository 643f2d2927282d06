-- ===== src/Log/Steps.antt =====
-- A Logger, its two AsyncLoggers and their threads over time.
use mathlib.Core.List.{append_assoc, append-nil}
use netrpc.Base.{
  ◌≡◌, refl, sym, ◌∙◌, ap, Bytes, false, ◌==◌, leb, ℤ, List, [], ◌∷◌, ◌++◌, Bool-cases, inl, inr,
  if◌then◌else◌,
}
use netrpc.Log.{
  Logger, LogLevel, loop, push_log, push_app_log, sync_loop, log_at, app_log_at, level_value, stop,
  flush,
}
use netrpc.Log.Stream.{concat, sink_stream, sync_buffer-stream, sink_stream-push, loop-stream}

-- What happens to a Logger: a line is logged for either file, the timer's event runs syncLoop, one
-- of the two threads goes one round, a signal's handler flushes.
pub data LogStep : Type 0 where
  log app_log : LogLevel → Bytes → LogStep
  sync flush_all : LogStep
  go_round app_round : Bytes → ℤ → LogStep

unfoldable pub step : LogStep → Logger → Logger
step (log level line) l = log_at level line l
step (app_log level line) l = app_log_at level line l
step sync l = sync_loop l
step flush_all l = flush l
step (go_round now position) l = record l { asnyc_logger = loop now position l.asnyc_logger }
step (app_round now position) l = record l {
  asnyc_app_logger = loop now position l.asnyc_app_logger;
}

unfoldable pub run_steps : List LogStep → Logger → Logger
run_steps [] l = l
run_steps (s ∷ steps) l = run_steps steps (step s l)

-- A line whose level is below the Logger's is dropped.
abbrev pub kept_line : LogLevel → LogLevel → Bytes → Bytes
kept_line set_level level line =
    if leb (level_value set_level) (level_value level) then line else []

-- The lines that a step gives to either file.
abbrev pub line_of : LogLevel → LogStep → Bytes
line_of set_level (log level line) = kept_line set_level level line
line_of set_level _ = []

abbrev pub app_line_of : LogLevel → LogStep → Bytes
app_line_of set_level (app_log level line) = kept_line set_level level line
app_line_of set_level _ = []

abbrev pub lines_of : (LogStep → Bytes) → List LogStep → Bytes
lines_of line_of [] = []
lines_of line_of (s ∷ steps) = line_of s ++ lines_of line_of steps

-- What a step makes of the two streams.
abbrev Given : Bytes → Bytes → Logger → Logger → Type 0
Given line app_line m l =
    (m.set_level ≡ l.set_level)
    × (m.type ≡ l.type)
    × (sink_stream m.asnyc_logger m.buffer ≡ sink_stream l.asnyc_logger l.buffer ++ line)
    × (sink_stream m.asnyc_app_logger m.app_buffer
        ≡ sink_stream l.asnyc_app_logger l.app_buffer ++ app_line)

same : (x y : Bytes) → x ≡ y → x ≡ y ++ []
same x y e = e ∙ sym (append-nil y)

-- The Logger of a server.
abbrev pub IsServer : Logger → Type 0
IsServer l = (l.type == 0) ≡ false

log_at-Given :
    (level : LogLevel) (line : Bytes) (l : Logger)
    → IsServer l
    → Given (kept_line l.set_level level line) [] (log_at level line l) l
unfolding log_at push_log
log_at-Given level line l server =
    elim (Bool-cases (leb (level_value l.set_level) (level_value level))) [
      | inl e ↦
          rw (e, log_at)
            (rw (server, push_log)
              (refl, refl, sink_stream-push l.asnyc_logger l.buffer line, same _ _ refl))
      | inr e ↦ rw (e, log_at) (refl, refl, same _ _ refl, same _ _ refl)
    ]

app_log_at-Given :
    (level : LogLevel) (line : Bytes) (l : Logger)
    → Given [] (kept_line l.set_level level line) (app_log_at level line l) l
unfolding app_log_at push_app_log
app_log_at-Given level line l =
    elim (Bool-cases (leb (level_value l.set_level) (level_value level))) [
      | inl e ↦
          rw (e, app_log_at)
            (refl, refl, same _ _ refl, sink_stream-push l.asnyc_app_logger l.app_buffer line)
      | inr e ↦ rw (e, app_log_at) (refl, refl, same _ _ refl, same _ _ refl)
    ]

sync_loop-Given : (l : Logger) → Given [] [] (sync_loop l) l
unfolding sync_loop
sync_loop-Given l = (
  refl,
  refl,
  same _ _ (sync_buffer-stream l.asnyc_logger l.buffer),
  same _ _ (sync_buffer-stream l.asnyc_app_logger l.app_buffer),
)

step-Given :
    (s : LogStep) (l : Logger)
    → IsServer l
    → Given (line_of l.set_level s) (app_line_of l.set_level s) (step s l) l
unfolding step flush stop
step-Given (log level line) l server = log_at-Given level line l server
step-Given (app_log level line) l server = app_log_at-Given level line l
step-Given sync l server = sync_loop-Given l
step-Given flush_all l server = sync_loop-Given l
step-Given (go_round now position) l server = (
  refl,
  refl,
  same _ _ (ap (λ x. x ++ concat l.buffer) (loop-stream now position l.asnyc_logger)),
  same _ _ refl,
)
step-Given (app_round now position) l server = (
  refl,
  refl,
  same _ _ refl,
  same _ _ (ap (λ x. x ++ concat l.app_buffer) (loop-stream now position l.asnyc_app_logger)),
)

-- On a server, whatever is logged, synced, written and flushed, and in whatever order: for each of
-- the two files, what the thread has written, then its queue, then the Logger's buffer hold
-- together what they held before and behind it the lines logged since whose level is not below the
-- Logger's, each once and in order.
pub run_steps-streams :
    (steps : List LogStep) (l : Logger)
    → IsServer l
    → (sink_stream (run_steps steps l).asnyc_logger (run_steps steps l).buffer
        ≡ sink_stream l.asnyc_logger l.buffer ++ lines_of (line_of l.set_level) steps)
      × (sink_stream (run_steps steps l).asnyc_app_logger (run_steps steps l).app_buffer
          ≡ sink_stream l.asnyc_app_logger l.app_buffer ++ lines_of (app_line_of l.set_level) steps)
unfolding run_steps
run_steps-streams [] l server = (same _ _ refl, same _ _ refl)
run_steps-streams (s ∷ steps) l server =
    let (level, type, main, app) = step-Given s l server in
    let (later, app_later) = run_steps-streams steps (step s l) (ap (λ t. t == 0) type ∙ server) in
    (
      later
          ∙ ap (λ x. x ++ lines_of (line_of (step s l).set_level) steps) main
          ∙ ap
              (λ v.
                (sink_stream l.asnyc_logger l.buffer ++ line_of l.set_level s)
                ++ lines_of (line_of v) steps)
              level
          ∙ append_assoc (sink_stream l.asnyc_logger l.buffer) (line_of l.set_level s)
              (lines_of (line_of l.set_level) steps),
      app_later
          ∙ ap (λ x. x ++ lines_of (app_line_of (step s l).set_level) steps) app
          ∙ ap
              (λ v.
                (sink_stream l.asnyc_app_logger l.app_buffer ++ app_line_of l.set_level s)
                ++ lines_of (app_line_of v) steps)
              level
          ∙ append_assoc (sink_stream l.asnyc_app_logger l.app_buffer) (app_line_of l.set_level s)
              (lines_of (app_line_of l.set_level) steps),
    )
