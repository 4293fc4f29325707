-- ===== src/Store/Sessions.antt =====
-- Which sessions have a row, and that the tables stay well formed.
use shellspectre.Base.{
  ◌≡◌, refl, sym, ap, ◌∙◌, Bool, true, false, ◌||◌, List, [], ◌∷◌, map, text_eq, All, arith,
}
use shellspectre.Database.{SessionRow}
use shellspectre.Handler.{SinkCall, exec_call, exit_call, io_call}
use shellspectre.SessionId.{SessionId}
use shellspectre.Store.Entries.{is_known, Knows}
use shellspectre.Store.Steps.{exec-Adds, exit_call-Adds, io_call-Adds}
use shellspectre.Store.Tables.{IsStored, record_calls-IsStored}
use shellspectre.Store.{Surroundings, Database, has_session, handle_call, record_calls}

-- Some exec call of the recording has the session.
abbrev pub has_exec : SessionId → List (Surroundings × SinkCall) → Bool
has_exec id [] = false
has_exec id ((world, exec_call session event) ∷ calls) =
    text_eq session.session_id id || has_exec id calls
has_exec id ((world, exit_call session event complete) ∷ calls) = has_exec id calls
has_exec id ((world, io_call session event event_type) ∷ calls) = has_exec id calls

known_rows :
    (id : SessionId) (rows : List SessionRow)
    → has_session id rows ≡ is_known (map (λ (row : SessionRow). row.id) rows) id
unfolding has_session
known_rows id [] = refl
known_rows id (row ∷ rows) = ap (λ b. text_eq row.id id || b) (known_rows id rows)

has_session-record_calls :
    (calls : List (Surroundings × SinkCall)) (known : List SessionId) (db : Database)
    (id : SessionId)
    → Knows known db
    → has_session id (record_calls calls db).sessions ≡ (has_exec id calls || is_known known id)
unfolding record_calls
has_session-record_calls [] known db id k = k id
has_session-record_calls ((world, exec_call session event) ∷ calls) known db id k =
    let added = exec-Adds world session event known db k in
    let rest =
      has_session-record_calls calls (session.session_id ∷ known)
        (handle_call world (exec_call session event) db) id added.knows in
    ground (arith, rest)
has_session-record_calls ((world, exit_call session event complete) ∷ calls) known db id k =
    let added = exit_call-Adds world session event complete known db k in
    has_session-record_calls calls known _ id added.knows
has_session-record_calls ((world, io_call session event event_type) ∷ calls) known db id k =
    let added = io_call-Adds world session event event_type known db k in
    has_session-record_calls calls known _ id added.knows

-- With foreign keys enforced, any sequence of calls keeps the tables well formed: the identifiers of the
-- rows increase, no session stands twice, and every row's session has its own row. And exactly the sessions
-- that were there before and those of the exec calls have a row.
pub record_calls-has_exec :
    (calls : List (Surroundings × SinkCall)) (db : Database) (id : SessionId)
    → All (λ (call : Surroundings × SinkCall). call.0.enforces_keys ≡ true) calls
    → IsStored db
    → IsStored (record_calls calls db)
      × (has_session id (record_calls calls db).sessions
          ≡ (has_exec id calls || has_session id db.sessions))
record_calls-has_exec calls db id enforced s = (
  record_calls-IsStored calls db enforced s,
  has_session-record_calls calls (map (λ (row : SessionRow). row.id) db.sessions) db id
        (λ i. known_rows i db.sessions)
      ∙ ap (λ b. has_exec id calls || b) (sym (known_rows id db.sessions)),
)
