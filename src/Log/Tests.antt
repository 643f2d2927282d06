-- ===== src/Log/Tests.antt =====
-- Two lines of a server's log.
use netrpc.Base.{◌≡◌, refl, Bytes, codes, true, false, not, ◌&&◌, ℤ, pos, List, [], ◌∷◌, ◌++◌}
use netrpc.Log.{Logger, AsyncLogger, new_async_logger, info, debug, error, flush}
use netrpc.Log.Stream.{concat, concat_queue, written, sink_stream}
use netrpc.Log.Steps.{
  LogStep, log, app_log, sync, flush_all, go_round, run_steps, line_of, app_line_of, lines_of,
  run_steps-streams,
}
use netrpc.Log.Crash.{coredump_handler, is_ok, is_empty, coredump_handler-returns}
use netrpc.Log.Rounds.{run_rounds, flush-run_rounds}

abbrev rpc_file : AsyncLogger
rpc_file = new_async_logger (codes "test_rpc") (codes "/tmp/") (pos 1000)

abbrev logger : Logger
logger = record {
  set_level = info;
  type = 1;
  buffer = [];
  app_buffer = [];
  asnyc_logger = rpc_file;
  asnyc_app_logger = new_async_logger (codes "test_app") (codes "/tmp/") (pos 1000);
  printed = [];
}

abbrev steps : List LogStep
steps =
    log error (codes "one")
    ∷ log debug (codes "dropped")
    ∷ sync
    ∷ go_round (codes "20240306") (pos 0)
    ∷ app_log info (codes "two")
    ∷ flush_all
    ∷ []

run_steps-streams_example :
    (sink_stream (run_steps steps logger).asnyc_logger (run_steps steps logger).buffer
      ≡ sink_stream logger.asnyc_logger logger.buffer ++ lines_of (line_of logger.set_level) steps)
    × (sink_stream (run_steps steps logger).asnyc_app_logger (run_steps steps logger).app_buffer
        ≡ sink_stream logger.asnyc_app_logger logger.app_buffer
          ++ lines_of (app_line_of logger.set_level) steps)
run_steps-streams_example = run_steps-streams steps logger refl

abbrev two_buffers : AsyncLogger
two_buffers = record rpc_file { buffer = (codes "one" ∷ []) ∷ (codes "two" ∷ []) ∷ [] }

abbrev rounds : List (Bytes × ℤ)
rounds = (codes "20240306", pos 0) ∷ (codes "20240306", pos 3) ∷ []

file_runs : two_buffers.is_running ≡ true
unfolding new_async_logger
file_runs = refl

file_goes_on : two_buffers.stop_flag ≡ false
unfolding new_async_logger
file_goes_on = refl

abbrev busy : Logger
busy = record logger { asnyc_logger = two_buffers; buffer = codes "three" ∷ [] }

flush-run_rounds_example :
    (written (run_rounds rounds (flush busy).asnyc_logger).writes
      ≡ written busy.asnyc_logger.writes ++ concat (codes "one" ∷ []))
    × (concat_queue (run_rounds rounds (flush busy).asnyc_logger).buffer
        ≡ concat_queue ((codes "two" ∷ []) ∷ []) ++ concat busy.buffer)
flush-run_rounds_example =
    flush-run_rounds (codes "20240306") (pos 0) ((codes "20240306", pos 3) ∷ []) (codes "one" ∷ [])
      ((codes "two" ∷ []) ∷ []) busy file_runs refl

app_runs : logger.asnyc_app_logger.is_running ≡ true
unfolding new_async_logger
app_runs = refl

coredump_handler-returns_example :
    is_ok (coredump_handler (codes "signal") rounds rounds busy)
    ≡ not (is_empty busy.asnyc_app_logger.buffer && is_empty busy.app_buffer)
coredump_handler-returns_example =
    coredump_handler-returns (codes "signal") (codes "20240306") (codes "20240306") (pos 0) (pos 0)
      ((codes "20240306", pos 3) ∷ []) ((codes "20240306", pos 3) ∷ []) busy refl file_runs app_runs
