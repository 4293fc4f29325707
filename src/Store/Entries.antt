-- ===== src/Store/Entries.antt =====
-- What the operations of the sink do to the entries of the table of events, and to the sessions that
-- are known.
use shellspectre.Base.{
  ℕ, ◌+◌, ◌==◌, ◌≡◌, refl, sym, ap, ◌∙◌, Bool, true, false, not, ◌&&◌, ◌||◌, Option, none, some,
  List, [], ◌∷◌, ◌++◌, map, ℤ, text_eq, text_eq_sound, ◌⊎◌, any, arith, if-both, Bool-cases, inl,
  inr,
}
use shellspectre.Database.{Row}
use shellspectre.Event.{ParsedExitEvent}
use shellspectre.Handler.{SessionInfo}
use shellspectre.SessionId.{SessionId}
use shellspectre.Store.Backfill.{after_exit-events}
use shellspectre.Store.Tables.{
  has_session-append, has_session_head, has_session_nil, has_session-end_session,
}
use shellspectre.Store.{
  Surroundings, Database, has_session, ensure_session, insert_row, after_exit, set_exit_code,
  set_on_latest, backfill,
}

-- What a log entry holds: a row, but its identifier and its exit code, which is backfilled.
abbrev pub row_entry : Row → Row
row_entry row = record row { id = 0; exit_code = none }

abbrev pub is_known : List SessionId → SessionId → Bool
is_known known id = any (λ k. text_eq k id) known

-- The sessions of the database are the known ones.
abbrev pub Knows : List SessionId → Database → Type 0
Knows known db = (id : SessionId) → has_session id db.sessions ≡ is_known known id

set_exit_code-entries :
    (code : ℤ) (id : ℕ) (rows : List Row)
    → map row_entry (set_exit_code code id rows) ≡ map row_entry rows
unfolding set_exit_code
set_exit_code-entries code id [] = refl
set_exit_code-entries code id (row ∷ rows) =
    let rest = set_exit_code-entries code id rows in
    if-both
      (λ new.
        (row_entry new ∷ map row_entry (set_exit_code code id rows))
        ≡ (row_entry row ∷ map row_entry rows))
      (row.id == id) (record row { exit_code = some code }) row
      (λ _. ap (λ es. row_entry row ∷ es) rest) (λ _. ap (λ es. row_entry row ∷ es) rest)

set_on_latest-entries :
    (code : ℤ) (found : Option ℕ) (rows : List Row)
    → map row_entry (set_on_latest code found rows) ≡ map row_entry rows
unfolding set_on_latest
set_on_latest-entries code none rows = refl
set_on_latest-entries code (some id) rows = set_exit_code-entries code id rows

pub after_exit-entries :
    (world : Surroundings) (session_id : SessionId) (event : ParsedExitEvent) (complete : Bool)
    (db : Database)
    → map row_entry (after_exit world session_id event complete db).events ≡ map row_entry db.events
unfolding backfill
after_exit-entries world session_id event complete db =
    ap (map row_entry) (after_exit-events world session_id event complete db)
    ∙ set_on_latest-entries event.exit_code _ db.events

pub after_exit-Knows :
    (world : Surroundings) (session_id : SessionId) (event : ParsedExitEvent) (complete : Bool)
    (known : List SessionId) (db : Database)
    → Knows known db
    → Knows known (after_exit world session_id event complete db)
unfolding after_exit
after_exit-Knows world session_id event false known db k = k
after_exit-Knows world session_id event true known db k =
    λ id. has_session-end_session id world.now session_id db.sessions ∙ k id

pub ensure_session-Knows :
    (world : Surroundings) (info : SessionInfo) (known : List SessionId) (db : Database)
    → Knows known db
    → Knows (info.session_id ∷ known) (ensure_session world info db)
unfolding ensure_session
ensure_session-Knows world info known db k = λ id.
    if-both
      (λ (next : Database).
        has_session id next.sessions ≡ (text_eq info.session_id id || is_known known id))
      (has_session info.session_id db.sessions) db _
      (λ held. already id held (Bool-cases (text_eq info.session_id id)))
      (λ new.
        has_session-append id db.sessions _
        ∙ ground (arith, k id, has_session_head id _ [], has_session_nil id))
  where
    already :
        (id : SessionId)
        → has_session info.session_id db.sessions ≡ true
        → (text_eq info.session_id id ≡ true) ⊎ (text_eq info.session_id id ≡ false)
        → has_session id db.sessions ≡ (text_eq info.session_id id || is_known known id)
    already id held (inl same) =
        ap (λ i. has_session i db.sessions) (sym (text_eq_sound info.session_id id same))
        ∙ held
        ∙ ap (λ b. b || is_known known id) (sym same)
    already id held (inr other) = k id ∙ ap (λ b. b || is_known known id) (sym other)

-- One insertion: the row is added unless its session is missing and keys are enforced.
pub insert_row-entries :
    (world : Surroundings) (row : ℕ → Row) (session_id : SessionId) (known : List SessionId)
    (db : Database)
    → Knows known db
    → (world.enforces_keys && not (is_known known session_id)) ≡ false
    → insert_row world row session_id db
      ≡ some
          (record db { events = db.events ++ row (db.last_id + 1) ∷ []; last_id = db.last_id + 1 })
unfolding insert_row
insert_row-entries world row session_id known db k h = rw (k session_id, h)

pub insert_row-missing :
    (world : Surroundings) (row : ℕ → Row) (session_id : SessionId) (known : List SessionId)
    (db : Database)
    → Knows known db
    → (world.enforces_keys && not (is_known known session_id)) ≡ true
    → insert_row world row session_id db ≡ none
unfolding insert_row
insert_row-missing world row session_id known db k h = rw (k session_id, h)
