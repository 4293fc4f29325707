-- ===== src/Store/Steps.antt =====
-- What one call of the sink adds to the table of events.
use shellspectre.Base.{
  ℕ, ◌+◌, ◌≡◌, refl, sym, ap, ◌∙◌, Bool, false, not, ◌&&◌, Option, none, some, List, [], ◌∷◌, ◌++◌,
  map, text_eq_refl, arith, if◌then◌else◌, if-both, Bool-cases, inl, inr, map-append,
}
use mathlib.Core.List.{append-nil}
use shellspectre.Database.{Row}
use shellspectre.Event.{ParsedExecEvent, ParsedExitEvent, ParsedIoEvent}
use shellspectre.Handler.{SessionInfo, exec_call, exit_call, io_call}
use shellspectre.SessionId.{SessionId}
use shellspectre.Store.{
  Surroundings, Database, has_session, ensure_session, insert_row, exec_row, insert_exec, exit_row,
  insert_exit, after_exit, io_row, insert_io, logged, handle_call,
}
use shellspectre.Wire.{EventType}
use shellspectre.Store.Entries.{
  row_entry, is_known, Knows, after_exit-entries, after_exit-Knows, ensure_session-Knows,
  insert_row-entries, insert_row-missing,
}

-- What handling a call adds to the log, and the sessions that are known after it.
pub record Adds (known : List SessionId) (entries : List Row) (db next : Database) : Type 0 where
  pub logged_entries : map row_entry next.events ≡ map row_entry db.events ++ entries
  pub knows : Knows known next

abbrev pub unless : Bool → Row → List Row
unless missing entry = if missing then [] else entry ∷ []

abbrev missing : Surroundings → List SessionId → SessionId → Bool
missing world known id = world.enforces_keys && not (is_known known id)

unchanged : (known : List SessionId) (db : Database) → Knows known db → Adds known [] db db
unchanged known db k = record {
  logged_entries = sym (append-nil (map row_entry db.events));
  knows = k;
}

io-Adds :
    (world : Surroundings) (row : ℕ → Row) (session_id : SessionId) (known : List SessionId)
    (db : Database) (entry : Row)
    → Knows known db
    → ((id : ℕ) → row_entry (row id) ≡ entry)
    → Adds known
        (unless (missing world known session_id) entry)
        db
        (logged (insert_row world row session_id db) db)
unfolding logged
io-Adds world row session_id known db entry k named =
    let id = db.last_id + 1 in
    elim (Bool-cases (missing world known session_id)) [
      | inl m ↦ rw (m, insert_row-missing world row session_id known db k m) (unchanged known db k)
      | inr p ↦
          rw (p, insert_row-entries world row session_id known db k p)
            (record {
              logged_entries =
                  map-append row_entry db.events (row id ∷ [])
                  ∙ ap (λ e. map row_entry db.events ++ e ∷ []) (named id);
              knows = k;
            })
    ]

exit_lost :
    (world : Surroundings) (session_id : SessionId) (event : ParsedExitEvent) (complete : Bool)
    (db : Database)
    → insert_row world (exit_row world session_id event) session_id db ≡ none
    → insert_exit world session_id event complete db ≡ none
unfolding insert_exit
exit_lost world session_id event complete db h =
    ap
      (λ (r : Option Database). elim r as (λ _. Option Database) [
        | none ↦ none
        | some d ↦ some (after_exit world session_id event complete d)
      ])
      h

exit_stored :
    (world : Surroundings) (session_id : SessionId) (event : ParsedExitEvent) (complete : Bool)
    (db inserted : Database)
    → insert_row world (exit_row world session_id event) session_id db ≡ some inserted
    → insert_exit world session_id event complete db
      ≡ some (after_exit world session_id event complete inserted)
unfolding insert_exit
exit_stored world session_id event complete db inserted h =
    ap
      (λ (r : Option Database). elim r as (λ _. Option Database) [
        | none ↦ none
        | some d ↦ some (after_exit world session_id event complete d)
      ])
      h

exit-Adds :
    (world : Surroundings) (session_id : SessionId) (event : ParsedExitEvent) (complete : Bool)
    (known : List SessionId) (db : Database)
    → Knows known db
    → Adds known
        (unless (missing world known session_id) (row_entry (exit_row world session_id event 0)))
        db
        (logged (insert_exit world session_id event complete db) db)
unfolding logged
exit-Adds world session_id event complete known db k =
    let id = db.last_id + 1 in
    let row = exit_row world session_id event in
    elim (Bool-cases (missing world known session_id)) [
      | inl m ↦
          rw
            (
              m,
              exit_lost world session_id event complete db
                  (insert_row-missing world row session_id known db k m),
            )
            (unchanged known db k)
      | inr p ↦
          rw
            (
              p,
              exit_stored world session_id event complete db _
                  (insert_row-entries world row session_id known db k p),
            )
            (record {
              logged_entries =
                  after_exit-entries world session_id event complete _
                  ∙ map-append row_entry db.events (row id ∷ [])
                  ∙ ap (λ e. map row_entry db.events ++ e ∷ []) (unfold exit_row in refl);
              knows = after_exit-Knows world session_id event complete known _ k;
            })
    ]

ensure_session-events :
    (world : Surroundings) (info : SessionInfo) (db : Database)
    → (ensure_session world info db).events ≡ db.events
unfolding ensure_session
ensure_session-events world info db =
    if-both (λ (next : Database). next.events ≡ db.events) (has_session info.session_id db.sessions)
      db _ (λ _. refl) (λ _. refl)

pub exec-Adds :
    (world : Surroundings) (session : SessionInfo) (event : ParsedExecEvent)
    (known : List SessionId) (db : Database)
    → Knows known db
    → Adds
        (session.session_id ∷ known)
        (row_entry (exec_row world session.session_id event 0) ∷ [])
        db
        (handle_call world (exec_call session event) db)
unfolding handle_call insert_exec
exec-Adds world session event known db k =
    let id = session.session_id in
    let ensured = ensure_session world session db in
    let knows = ensure_session-Knows world session known db k in
    let added =
      io-Adds world (exec_row world id event) id (id ∷ known) ensured
        (row_entry (exec_row world id event 0)) knows (λ i. unfold exec_row in refl) in
    let present : missing world (id ∷ known) id ≡ false = ground (arith, text_eq_refl id) in
    record {
      logged_entries =
          added.logged_entries
          ∙ ap
              (λ b.
                map row_entry ensured.events ++ unless b (row_entry (exec_row world id event 0)))
              present
          ∙ ap (λ rows. map row_entry rows ++ (row_entry (exec_row world id event 0)) ∷ [])
              (ensure_session-events world session db);
      knows = added.knows;
    }

pub exit_call-Adds :
    (world : Surroundings) (session : SessionInfo) (event : ParsedExitEvent) (complete : Bool)
    (known : List SessionId) (db : Database)
    → Knows known db
    → Adds known
        (unless
          (missing world known session.session_id)
          (row_entry (exit_row world session.session_id event 0)))
        db
        (handle_call world (exit_call session event complete) db)
unfolding handle_call
exit_call-Adds world session = exit-Adds world session.session_id

pub io_call-Adds :
    (world : Surroundings) (session : SessionInfo) (event : ParsedIoEvent) (event_type : EventType)
    (known : List SessionId) (db : Database)
    → Knows known db
    → Adds known
        (unless
          (missing world known session.session_id)
          (row_entry (io_row world session.session_id event event_type 0)))
        db
        (handle_call world (io_call session event event_type) db)
unfolding handle_call insert_io io_row
io_call-Adds world session event event_type known db k =
    io-Adds world (io_row world session.session_id event event_type) session.session_id known db _ k
      (λ i. refl)
