-- ===== src/Log.antt =====
-- Logger and AsyncLogger of netrpc/common/log.{h,cc}. The thread of an AsyncLogger is its rounds,
-- one for each buffer that it takes; the date of a round and what ftell says in it are arguments,
-- and so are the time, the process and the thread that a line names. fopen succeeds.
pub mod Stream
pub mod Steps
pub mod Rounds
pub mod Crash
mod Tests
use netrpc.Base.{
  ℕ, ◌+◌, Bytes, codes, Bool, true, false, not, ◌||◌, ◌==◌, ltb, leb, ℤ, pos, leb_ℤ, Option, none,
  some, List, [], ◌∷◌, ◌++◌, if◌then◌else◌,
}
use netrpc.StdMap.{bytes_eq}
use netrpc.Decimal.{decimal}
use netrpc.Rpc.Dispatcher.{RunTime}

pub data LogLevel : Type 0 where
  unknown debug info error : LogLevel

-- The values of the enum.
unfoldable pub level_value : LogLevel → ℕ
level_value unknown = 0
level_value debug = 1
level_value info = 2
level_value error = 3

unfoldable pub log_level_to_string : LogLevel → Bytes
log_level_to_string debug = codes "DEBUG"
log_level_to_string info = codes "INFO"
log_level_to_string error = codes "ERROR"
log_level_to_string unknown = codes "UNKNOWN"

unfoldable pub string_to_log_level : Bytes → LogLevel
string_to_log_level log_level =
    if bytes_eq log_level (codes "DEBUG")
    then debug
    else if bytes_eq log_level (codes "INFO")
    then info
    else if bytes_eq log_level (codes "ERROR")
    then error
    else unknown

pub record AsyncLogger : Type 0 where
  -- the queue of buffers, from the oldest
  pub buffer : List (List Bytes)
  pub file_name : Bytes
  pub file_path : Bytes
  pub max_file_size : ℤ
  pub date : Bytes
  -- the name of the open file
  pub file_handler : Option Bytes
  pub reopen_flag : Bool
  pub no : ℕ
  pub stop_flag : Bool
  -- the thread has not returned
  pub is_running : Bool
  -- each fwrite in order: the file's name and the text
  pub writes : List (Option Bytes × Bytes)

unfoldable pub new_async_logger : Bytes → Bytes → ℤ → AsyncLogger
new_async_logger file_name file_path max_size = record {
  buffer = [];
  file_name = file_name;
  file_path = file_path;
  max_file_size = max_size;
  date = [];
  file_handler = none;
  reopen_flag = false;
  no = 0;
  stop_flag = false;
  is_running = true;
  writes = [];
}

unfoldable pub stop : AsyncLogger → AsyncLogger
stop a = record a { stop_flag = true }

unfoldable pub push_log_buffer : List Bytes → AsyncLogger → AsyncLogger
push_log_buffer vec a = record a { buffer = a.buffer ++ (vec ∷ []) }

abbrev is_null : Option Bytes → Bool
is_null none = true
is_null (some _) = false

-- A new day starts at the number 0 in a new file; so does a thread that has no file.
unfoldable pub turn_date : Bytes → AsyncLogger → AsyncLogger
turn_date now a =
    let dated = record a { no = 0; reopen_flag = true; date = now } in
    let turned = if not (bytes_eq now a.date) then dated else a in
    let unopened = record turned { reopen_flag = true } in
    if is_null turned.file_handler then unopened else turned

unfoldable pub log_file_name : AsyncLogger → Bytes
log_file_name a = a.file_path ++ a.file_name ++ codes "_" ++ a.date ++ codes "_log." ++ decimal a.no

unfoldable pub reopen : Bytes → AsyncLogger → AsyncLogger
reopen name a =
    let opened = record a { file_handler = some name; reopen_flag = false } in
    if a.reopen_flag then opened else a

-- A file that is too long is closed; the code compares its name with the next one where it means to
-- assign, so the file of the old name is opened again, and only the number goes up.
unfoldable pub roll : ℤ → Bytes → AsyncLogger → AsyncLogger
roll position name a =
    let rolled = record a { no = a.no + 1; file_handler = some name; reopen_flag = false } in
    if leb_ℤ position a.max_file_size then a else rolled

unfoldable pub write_logs : List Bytes → AsyncLogger → AsyncLogger
write_logs [] a = a
write_logs (text ∷ texts) a =
    let written = record a { writes = a.writes ++ ((a.file_handler, text) ∷ []) } in
    write_logs texts (if bytes_eq text [] then a else written)

-- The end of a round.
unfoldable pub return_if_stopped : AsyncLogger → AsyncLogger
return_if_stopped a = record a { is_running = not a.stop_flag }

-- A round with the buffer that it took from the queue.
unfoldable pub round_with : Bytes → ℤ → List Bytes → AsyncLogger → AsyncLogger
round_with now position tmp a =
    let turned = turn_date now a in
    let name = log_file_name turned in
    return_if_stopped (write_logs tmp (roll position name (reopen name turned)))

unfoldable pub take_buffer : Bytes → ℤ → List (List Bytes) → AsyncLogger → AsyncLogger
take_buffer now position [] a = a
take_buffer now position (tmp ∷ buffer) a =
    round_with now position tmp (record a { buffer = buffer })

-- One round of Loop; on an empty queue the thread waits.
unfoldable pub loop : Bytes → ℤ → AsyncLogger → AsyncLogger
loop now position a = if a.is_running then take_buffer now position a.buffer a else a

-- The two AsyncLoggers are those that Init makes.
pub record Logger : Type 0 where
  pub set_level : LogLevel
  pub type : ℕ
  pub buffer : List Bytes
  pub app_buffer : List Bytes
  pub asnyc_logger : AsyncLogger
  pub asnyc_app_logger : AsyncLogger
  -- what printf has put out
  pub printed : List Bytes

unfoldable pub push_log : Bytes → Logger → Logger
push_log msg l =
    let shown = record l { printed = l.printed ++ ((msg ++ codes "\n") ∷ []) } in
    let kept = record l { buffer = l.buffer ++ (msg ∷ []) } in if l.type == 0 then shown else kept

unfoldable pub push_app_log : Bytes → Logger → Logger
push_app_log msg l = record l { app_buffer = l.app_buffer ++ (msg ∷ []) }

-- An empty vector is not pushed.
unfoldable pub sync_buffer : List Bytes → AsyncLogger → AsyncLogger
sync_buffer [] a = a
sync_buffer (text ∷ texts) a = push_log_buffer (text ∷ texts) a

unfoldable pub sync_loop : Logger → Logger
sync_loop l = record l {
  buffer = [];
  asnyc_logger = sync_buffer l.buffer l.asnyc_logger;
  app_buffer = [];
  asnyc_app_logger = sync_buffer l.app_buffer l.asnyc_app_logger;
}

-- fflush keeps the model's state.
unfoldable pub flush : Logger → Logger
flush l =
    let synced = sync_loop l in
    record synced {
      asnyc_logger = stop synced.asnyc_logger;
      asnyc_app_logger = stop synced.asnyc_app_logger;
    }

abbrev bracket : Bytes → Bytes
bracket text = codes "[" ++ text ++ codes "]\t"

abbrev bracket_some : Bytes → Bytes
bracket_some text = if bytes_eq text [] then [] else bracket text

-- LogEvent::toString, at a time, in a process and a thread.
unfoldable pub event_to_string : Bytes → ℕ → ℕ → RunTime → LogLevel → Bytes
event_to_string time pid thread_id run_time level =
    bracket (log_level_to_string level)
    ++ bracket time
    ++ bracket (decimal pid ++ codes ":" ++ decimal thread_id)
    ++ bracket_some run_time.msg_id
    ++ bracket_some run_time.method_name

-- The line of DEBUGLOG and its like: the event, the place in the source, the formatted text.
unfoldable pub log_line : Bytes → Bytes → ℕ → Bytes → Bytes
log_line event file line text =
    event ++ bracket (file ++ codes ":" ++ decimal line) ++ text ++ codes "\n"

-- DEBUGLOG, INFOLOG, ERRORLOG and the APP ones.
unfoldable pub log_at : LogLevel → Bytes → Logger → Logger
log_at level line l =
    if leb (level_value l.set_level) (level_value level) then push_log line l else l

unfoldable pub app_log_at : LogLevel → Bytes → Logger → Logger
app_log_at level line l =
    if leb (level_value l.set_level) (level_value level) then push_app_log line l else l
