-- ===== src/Store/Tables.antt =====
-- What holds of the two tables after any recording.
use shellspectre.Base.{
  ℕ, ◌+◌, ◌==◌, ◌≡◌, refl, ap, ◌∙◌, Bool, true, false, ◌||◌, Option, none, some, List, [], ◌∷◌,
  ◌++◌, ℤ, Text, text_eq, All, All-append, arith, if-both, text_eq_sym, any-append,
}
use mathlib.Core.Path.{subst}
use shellspectre.Database.{Row, SessionRow}
use shellspectre.Event.{ParsedExitEvent}
use shellspectre.Handler.{SessionInfo, SinkCall, exec_call, exit_call, io_call}
use shellspectre.SessionId.{SessionId}
use shellspectre.Store.Backfill.{AreOrdered, AreOrdered-push}
use shellspectre.Store.{
  Surroundings, Database, has_session, ensure_session, insert_row, exec_row, insert_exec, exit_row,
  insert_exit, after_exit, io_row, insert_io, set_exit_code, set_on_latest, backfill, end_session,
  logged, handle_call, record_calls,
}

-- No session stands twice.
abbrev pub AreDistinct : List SessionRow → Type 0
AreDistinct [] = Unit
AreDistinct (row ∷ rows) = (has_session row.id rows ≡ false) × AreDistinct rows

-- The sessions of the rows are in the table of sessions.
abbrev pub HaveSessions : List SessionRow → List Row → Type 0
HaveSessions sessions = All (λ row. has_session row.session_id sessions ≡ true)

pub record IsStored (db : Database) : Type 0 where
  pub ordered : AreOrdered 0 db.events db.last_id
  pub distinct : AreDistinct db.sessions
  pub have_sessions : HaveSessions db.sessions db.events

pub has_session-append :
    (id : SessionId) (rows more : List SessionRow)
    → has_session id (rows ++ more) ≡ (has_session id rows || has_session id more)
unfolding has_session
has_session-append id rows more = any-append (λ row. text_eq row.id id) rows more

HaveSessions-more :
    (sessions more : List SessionRow) (rows : List Row)
    → HaveSessions sessions rows
    → HaveSessions (sessions ++ more) rows
HaveSessions-more sessions more [] h = tt
HaveSessions-more sessions more (row ∷ rows) h = (
  ground (arith, has_session-append row.session_id sessions more),
  HaveSessions-more sessions more rows h.1,
)

pub has_session_head :
    (id : SessionId) (row : SessionRow) (rows : List SessionRow)
    → has_session id (row ∷ rows) ≡ (text_eq row.id id || has_session id rows)
unfolding has_session
has_session_head id row rows = refl

pub has_session_nil : (id : SessionId) → has_session id [] ≡ false
unfolding has_session
has_session_nil id = refl

AreDistinct-push :
    (rows : List SessionRow) (row : SessionRow)
    → AreDistinct rows
    → has_session row.id rows ≡ false
    → AreDistinct (rows ++ row ∷ [])
AreDistinct-push [] row d h = (unfold has_session in refl, tt)
AreDistinct-push (held ∷ rows) row d h = (
  has_session-append held.id rows (row ∷ [])
      ∙ ground (
        arith,
        text_eq_sym held.id row.id,
        d.0,
        h,
        has_session_head row.id held rows,
        has_session_head held.id row [],
        has_session_nil held.id,
      ),
  AreDistinct-push rows row d.1 (ground (arith, h, has_session_head row.id held rows)),
)

ensure_session-IsStored :
    (world : Surroundings) (info : SessionInfo) (db : Database)
    → IsStored db
    → IsStored (ensure_session world info db)
unfolding ensure_session
ensure_session-IsStored world info db s =
    if-both IsStored (has_session info.session_id db.sessions) db _ (λ h. s)
      (λ h. record {
        ordered = s.ordered;
        distinct = AreDistinct-push db.sessions _ s.distinct h;
        have_sessions = HaveSessions-more db.sessions _ db.events s.have_sessions;
      })

insert_row-cases :
    (world : Surroundings) (row : ℕ → Row) (session_id : SessionId) (db next : Database)
    → world.enforces_keys ≡ true
    → insert_row world row session_id db ≡ some next
    → (has_session session_id db.sessions ≡ true)
      × (record db { events = db.events ++ row (db.last_id + 1) ∷ []; last_id = db.last_id + 1 }
          ≡ next)
unfolding insert_row
insert_row-cases world row session_id db next enforced h = ground (arith, enforced, h)

-- A row that is inserted takes the next identifier, and its session exists if keys are enforced.
insert_row-IsStored :
    (world : Surroundings) (row : ℕ → Row) (session_id : SessionId) (db next : Database)
    → world.enforces_keys ≡ true
    → ((id : ℕ) → ((row id).id ≡ id) × ((row id).session_id ≡ session_id))
    → IsStored db
    → insert_row world row session_id db ≡ some next
    → IsStored next
insert_row-IsStored world row session_id db next enforced named s h =
    let (known, reached) = insert_row-cases world row session_id db next enforced h in
    let new = row (db.last_id + 1) in
    let (id, session) = named (db.last_id + 1) in
    subst IsStored reached (record {
      ordered = AreOrdered-push 0 db.events db.last_id new s.ordered id;
      distinct = s.distinct;
      have_sessions =
          All-append _ db.events (new ∷ []) s.have_sessions
            (ap (λ sid. has_session sid db.sessions) session ∙ known, tt);
    })

set_exit_code-AreOrdered :
    (code : ℤ) (id low : ℕ) (rows : List Row) (high : ℕ)
    → AreOrdered low rows high
    → AreOrdered low (set_exit_code code id rows) high
unfolding set_exit_code
set_exit_code-AreOrdered code id low [] high o = o
set_exit_code-AreOrdered code id low (row ∷ rows) high o =
    if-both (λ new. AreOrdered low (new ∷ set_exit_code code id rows) high) (row.id == id)
      (record row { exit_code = some code }) row
      (λ _. (o.0, set_exit_code-AreOrdered code id row.id rows high o.1))
      (λ _. (o.0, set_exit_code-AreOrdered code id row.id rows high o.1))

set_exit_code-HaveSessions :
    (code : ℤ) (id : ℕ) (sessions : List SessionRow) (rows : List Row)
    → HaveSessions sessions rows
    → HaveSessions sessions (set_exit_code code id rows)
unfolding set_exit_code
set_exit_code-HaveSessions code id sessions [] h = tt
set_exit_code-HaveSessions code id sessions (row ∷ rows) h =
    if-both (λ new. HaveSessions sessions (new ∷ set_exit_code code id rows)) (row.id == id)
      (record row { exit_code = some code }) row
      (λ _. (h.0, set_exit_code-HaveSessions code id sessions rows h.1))
      (λ _. (h.0, set_exit_code-HaveSessions code id sessions rows h.1))

set_on_latest-IsStored :
    (code : ℤ) (found : Option ℕ) (db : Database)
    → IsStored db
    → IsStored (record db { events = set_on_latest code found db.events })
unfolding set_on_latest
set_on_latest-IsStored code none db s = s
set_on_latest-IsStored code (some id) db s = record {
  ordered = set_exit_code-AreOrdered code id 0 db.events db.last_id s.ordered;
  distinct = s.distinct;
  have_sessions = set_exit_code-HaveSessions code id db.sessions db.events s.have_sessions;
}

-- Closing a session keeps every session.
pub has_session-end_session :
    (id : SessionId) (now : Text) (ended : SessionId) (rows : List SessionRow)
    → has_session id (end_session now ended rows) ≡ has_session id rows
unfolding has_session end_session
has_session-end_session id now ended [] = refl
has_session-end_session id now ended (row ∷ rows) =
    let rest = has_session-end_session id now ended rows in
    if-both
      (λ (new : SessionRow).
        (text_eq new.id id || has_session id (end_session now ended rows))
        ≡ (text_eq row.id id || has_session id rows))
      (text_eq row.id ended) (record row { ended_at = some now }) row
      (λ _. ap (λ b. text_eq row.id id || b) rest) (λ _. ap (λ b. text_eq row.id id || b) rest)

end_session-AreDistinct :
    (now : Text) (ended : SessionId) (rows : List SessionRow)
    → AreDistinct rows
    → AreDistinct (end_session now ended rows)
unfolding end_session
end_session-AreDistinct now ended [] d = tt
end_session-AreDistinct now ended (row ∷ rows) d =
    let kept : (has_session row.id (end_session now ended rows) ≡ false)
        × AreDistinct (end_session now ended rows) =
      (
        has_session-end_session row.id now ended rows ∙ d.0,
        end_session-AreDistinct now ended rows d.1,
      ) in
    if-both (λ new. AreDistinct (new ∷ end_session now ended rows)) (text_eq row.id ended)
      (record row { ended_at = some now }) row (λ _. kept) (λ _. kept)

HaveSessions-end_session :
    (now : Text) (ended : SessionId) (sessions : List SessionRow) (rows : List Row)
    → HaveSessions sessions rows
    → HaveSessions (end_session now ended sessions) rows
HaveSessions-end_session now ended sessions [] h = tt
HaveSessions-end_session now ended sessions (row ∷ rows) h = (
  has_session-end_session row.session_id now ended sessions ∙ h.0,
  HaveSessions-end_session now ended sessions rows h.1,
)

after_exit-IsStored :
    (world : Surroundings) (session_id : SessionId) (event : ParsedExitEvent) (complete : Bool)
    (db : Database)
    → IsStored db
    → IsStored (after_exit world session_id event complete db)
unfolding after_exit backfill
after_exit-IsStored world session_id event false db s =
    set_on_latest-IsStored event.exit_code _ db s
after_exit-IsStored world session_id event true db s =
    let filled = set_on_latest-IsStored event.exit_code _ db s in
    record {
      ordered = filled.ordered;
      distinct = end_session-AreDistinct world.now session_id db.sessions filled.distinct;
      have_sessions =
          HaveSessions-end_session world.now session_id db.sessions _ filled.have_sessions;
    }

logged-IsStored :
    (result : Option Database) (db : Database)
    → IsStored db
    → ((next : Database) → result ≡ some next → IsStored next)
    → IsStored (logged result db)
unfolding logged
logged-IsStored none db s h = s
logged-IsStored (some next) db s h = h next refl

insert_exit-IsStored :
    (world : Surroundings) (session_id : SessionId) (event : ParsedExitEvent) (complete : Bool)
    (db next : Database)
    → world.enforces_keys ≡ true
    → IsStored db
    → insert_exit world session_id event complete db ≡ some next
    → IsStored next
unfolding insert_exit
insert_exit-IsStored world session_id event complete db next enforced s h =
    go (insert_row world (exit_row world session_id event) session_id db) refl h
  where
    go :
        (result : Option Database)
        → insert_row world (exit_row world session_id event) session_id db ≡ result
        → elim result [
          | none ↦ none
          | some inserted ↦ some (after_exit world session_id event complete inserted)
        ]
          ≡ some next
        → IsStored next
    go none e q = absurd (cc)
    go (some inserted) e q =
        let reached : after_exit world session_id event complete inserted ≡ next = ground arith in
        let stored =
          insert_row-IsStored world (exit_row world session_id event) session_id db inserted
            enforced (λ id. unfold exit_row in (refl, refl)) s e in
        subst IsStored reached (after_exit-IsStored world session_id event complete inserted stored)

handle_call-IsStored :
    (world : Surroundings) (call : SinkCall) (db : Database)
    → world.enforces_keys ≡ true
    → IsStored db
    → IsStored (handle_call world call db)
unfolding handle_call insert_exec insert_io
handle_call-IsStored world (exec_call session event) db enforced s =
    let ensured = ensure_session-IsStored world session db s in
    logged-IsStored _ (ensure_session world session db) ensured (λ next h.
      insert_row-IsStored world (exec_row world session.session_id event) session.session_id
        (ensure_session world session db) next enforced (λ id. unfold exec_row in (refl, refl))
        ensured h)
handle_call-IsStored world (exit_call session event complete) db enforced s =
    logged-IsStored _ db s
      (λ next h. insert_exit-IsStored world session.session_id event complete db next enforced s h)
handle_call-IsStored world (io_call session event event_type) db enforced s =
    logged-IsStored _ db s (λ next h.
      insert_row-IsStored world (io_row world session.session_id event event_type)
        session.session_id db next enforced (λ id. unfold io_row in (refl, refl)) s h)

pub record_calls-IsStored :
    (calls : List (Surroundings × SinkCall)) (db : Database)
    → All (λ (call : Surroundings × SinkCall). call.0.enforces_keys ≡ true) calls
    → IsStored db
    → IsStored (record_calls calls db)
unfolding record_calls
record_calls-IsStored [] db enforced s = s
record_calls-IsStored ((world, call) ∷ calls) db enforced s =
    record_calls-IsStored calls (handle_call world call db) enforced.1
      (handle_call-IsStored world call db enforced.0 s)
