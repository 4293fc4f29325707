-- ===== src/Store/Log.antt =====
-- The table of events as a log of the sink's calls.
use shellspectre.Base.{
  ◌≡◌, sym, ap, ◌∙◌, Bool, not, ◌&&◌, List, [], ◌∷◌, ◌++◌, map, arith, if◌then◌else◌,
}
use mathlib.Core.List.{append-nil, append_assoc}
use shellspectre.Database.{Row}
use shellspectre.Handler.{SinkCall, exec_call, exit_call, io_call}
use shellspectre.SessionId.{SessionId}
use shellspectre.Store.Tables.{has_session_nil}
use shellspectre.Store.{
  Surroundings, Database, empty_database, exec_row, exit_row, io_row, record_calls,
}
use shellspectre.Store.Entries.{row_entry, is_known, Knows}
use shellspectre.Store.Steps.{Adds, unless, exec-Adds, exit_call-Adds, io_call-Adds}

abbrev unless_missing : Bool → Bool → Row → List Row → List Row
unless_missing enforced known entry rest = if enforced && not known then rest else entry ∷ rest

-- The log of the calls: an exec makes its session known; where keys are enforced, an exit or I/O call of
-- an unknown session is left out.
unfoldable pub log_of : List SessionId → List (Surroundings × SinkCall) → List Row
log_of known [] = []
log_of known ((world, exec_call session event) ∷ calls) =
    row_entry (exec_row world session.session_id event 0)
    ∷ log_of (session.session_id ∷ known) calls
log_of known ((world, exit_call session event complete) ∷ calls) =
    unless_missing world.enforces_keys (is_known known session.session_id)
      (row_entry (exit_row world session.session_id event 0)) (log_of known calls)
log_of known ((world, io_call session event event_type) ∷ calls) =
    unless_missing world.enforces_keys (is_known known session.session_id)
      (row_entry (io_row world session.session_id event event_type 0)) (log_of known calls)

unless-append :
    (enforced known : Bool) (entry : Row) (rest : List Row)
    → unless (enforced && not known) entry ++ rest ≡ unless_missing enforced known entry rest
unless-append enforced known entry rest = ground arith

-- One call more in front of a recording.
extend :
    (known : List SessionId) (entries : List Row) (db next : Database)
    (calls : List (Surroundings × SinkCall))
    → Adds known entries db next
    → map row_entry (record_calls calls next).events
      ≡ map row_entry next.events ++ log_of known calls
    → map row_entry (record_calls calls next).events
      ≡ map row_entry db.events ++ (entries ++ log_of known calls)
extend known entries db next calls added rest =
    rest
    ∙ ap (λ es. es ++ log_of known calls) added.logged_entries
    ∙ append_assoc (map row_entry db.events) entries (log_of known calls)

entries-log_of :
    (calls : List (Surroundings × SinkCall)) (known : List SessionId) (db : Database)
    → Knows known db
    → map row_entry (record_calls calls db).events ≡ map row_entry db.events ++ log_of known calls
unfolding record_calls log_of
entries-log_of [] known db k = sym (append-nil (map row_entry db.events))
entries-log_of ((world, exec_call session event) ∷ calls) known db k =
    let added = exec-Adds world session event known db k in
    extend (session.session_id ∷ known) _ db _ calls added
      (entries-log_of calls (session.session_id ∷ known) _ added.knows)
entries-log_of ((world, exit_call session event complete) ∷ calls) known db k =
    let id = session.session_id in
    let added = exit_call-Adds world session event complete known db k in
    extend known _ db _ calls added (entries-log_of calls known _ added.knows)
    ∙ ap (λ es. map row_entry db.events ++ es)
        (unless-append world.enforces_keys (is_known known id) _ (log_of known calls))
entries-log_of ((world, io_call session event event_type) ∷ calls) known db k =
    let id = session.session_id in
    let added = io_call-Adds world session event event_type known db k in
    extend known _ db _ calls added (entries-log_of calls known _ added.knows)
    ∙ ap (λ es. map row_entry db.events ++ es)
        (unless-append world.enforces_keys (is_known known id) _ (log_of known calls))

pub record_calls-log_of :
    (calls : List (Surroundings × SinkCall))
    → map row_entry (record_calls calls empty_database).events ≡ log_of [] calls
record_calls-log_of calls = entries-log_of calls [] empty_database has_session_nil
