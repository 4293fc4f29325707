-- ===== src/Store/Tests.antt =====
-- The SQLite sink.
use shellspectre.Base.{false, ◌||◌, ◌≡◌, refl, true, none, List, [], ◌∷◌, ◌++◌, Text, codes, arith}
use shellspectre.Event.{exec_of, exit_of, io_of}
use shellspectre.Examples.Data.{shell_exec, shell_write, shell_exit}
use shellspectre.Handler.{
  SinkCall, exec_call, exit_call, io_call, exec_session, exit_session, io_session,
}
use shellspectre.Store.Tables.{IsStored}
use shellspectre.Store.Sessions.{has_exec, record_calls-has_exec}
use shellspectre.Store.{
  io_row, Surroundings, Database, empty_database, exit_row, record_calls, exec_row, has_session,
  after_exit,
}
use shellspectre.Wire.{write}
use shellspectre.Database.{Row}
use shellspectre.Event.{ParsedExecEvent, ParsedIoEvent}
use shellspectre.Handler.{SessionInfo}
use shellspectre.Reads.Streams.{detail_from}
use shellspectre.Reads.{EventDetail}

abbrev world : Surroundings
world = record { now = codes "2026-01-01"; argv_json = λ args. codes "[]"; enforces_keys = true }

abbrev session : Text
session = codes "ox_aaaa1111"

abbrev calls : List (Surroundings × SinkCall)
calls =
    (world, exec_call (exec_session session (exec_of shell_exec)) (exec_of shell_exec))
    ∷ (world, io_call (io_session session (io_of shell_write)) (io_of shell_write) write)
    ∷ (world, exit_call (exit_session session (exit_of shell_exit)) (exit_of shell_exit) true)
    ∷ []

-- a database that does not enforce keys
abbrev lenient : Surroundings
lenient = record world { enforces_keys = false }

abbrev exec_and_write :
    SessionInfo → ParsedExecEvent → ParsedIoEvent → List (Surroundings × SinkCall)
exec_and_write info e i = (lenient, exec_call info e) ∷ (lenient, io_call info i write) ∷ []

abbrev echoed : ParsedIoEvent
echoed = record {
  pid = 42;
  ppid = 1;
  uid = 0;
  gid = 0;
  euid = 0;
  comm = codes "echo";
  tty_nr = 0;
  cgroup_id = 0;
  execution_id = 5;
  fd = 1;
  payload = codes "hi";
  count = 2;
}

abbrev info : SessionInfo
info = exec_session session (exec_of shell_exec)

abbrev two_calls : List (Surroundings × SinkCall)
two_calls = exec_and_write info (exec_of shell_exec) echoed

abbrev recorded : List Row
recorded = (record_calls two_calls empty_database).events

abbrev written_detail : EventDetail
written_detail = detail_from recorded (io_row lenient info.session_id echoed write 2) write

empty-IsStored : IsStored empty_database
empty-IsStored = record { ordered = omega arith; distinct = tt; have_sessions = tt }

record_calls-has_exec_example :
    IsStored (record_calls calls empty_database)
    × (has_session session (record_calls calls empty_database).sessions
        ≡ (has_exec session calls || has_session session empty_database.sessions))
record_calls-has_exec_example =
    record_calls-has_exec calls empty_database session (refl, (refl, (refl, tt))) empty-IsStored

-- a database with the session
started : Database
started = record {
  sessions =
      record {
        id = session;
        started_at = codes "2026-01-01";
        ended_at = none;
        root_pid = 42;
        root_comm = none;
        uid = 0;
        euid = 0;
        tty_nr = none;
        cgroup_id = none;
      }
      ∷ [];
  events = exec_row world session (exec_of shell_exec) 1 ∷ [];
  last_id = 1;
}

stored : Database
unfolding started
stored = after_exit world session (exit_of shell_exit) true (record started {
  events = started.events ++ exit_row world session (exit_of shell_exit) 2 ∷ [];
  last_id = 2;
})
