-- ===== src/Store/Backfill.antt =====
-- Where the exit code of a process goes.
use shellspectre.Base.{
  ℕ, ◌+◌, ◌≤◌, ◌<◌, ◌≡◌, refl, Bool, true, false, some, List, [], ◌∷◌, ◌++◌, ℤ, any, arith,
  if◌then◌else◌,
}
use shellspectre.Database.{Row}
use shellspectre.Event.{ParsedExitEvent}
use shellspectre.SessionId.{SessionId}
use shellspectre.Store.{
  Surroundings, Database, as_i64, insert_row, after_exit, is_exec_of, backfill,
}

-- The identifiers of the rows increase from above `low` up to `high`.
abbrev pub AreOrdered : ℕ → List Row → ℕ → Type 0
AreOrdered low [] high = low ≤ high
AreOrdered low (row ∷ rows) high = (low < row.id) × AreOrdered row.id rows high

-- The last row that passes the test gets the exit code.
pub fill_last : (Row → Bool) → ℤ → List Row → List Row
fill_last test code [] = []
fill_last test code (row ∷ rows) =
    let deeper = fill_last test code rows in
    if any test rows
    then row ∷ deeper
    else if test row
    then record row { exit_code = some code } ∷ rows
    else row ∷ rows

-- the exec rows of the process
abbrev pub execs_of : SessionId → ParsedExitEvent → Row → Bool
execs_of session_id event = is_exec_of session_id event.pid (as_i64 event.execution_id)

pub AreOrdered-push :
    (low : ℕ) (rows : List Row) (high : ℕ) (row : Row)
    → AreOrdered low rows high
    → row.id ≡ high + 1
    → AreOrdered low (rows ++ row ∷ []) (high + 1)
AreOrdered-push low [] high row o e = omega (arith, o, e)
AreOrdered-push low (held ∷ rows) high row o e = (o.0, AreOrdered-push held.id rows high row o.1 e)

pub after_exit-events :
    (world : Surroundings) (session_id : SessionId) (event : ParsedExitEvent) (complete : Bool)
    (db : Database)
    → (after_exit world session_id event complete db).events ≡ backfill session_id event db.events
unfolding after_exit
after_exit-events world session_id event true db = refl
after_exit-events world session_id event false db = refl

pub inserted-events :
    (world : Surroundings) (row : ℕ → Row) (session_id : SessionId) (db next : Database)
    → insert_row world row session_id db ≡ some next
    → next.events ≡ db.events ++ row (db.last_id + 1) ∷ []
unfolding insert_row
inserted-events world row session_id db next h = ground arith
