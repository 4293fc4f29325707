-- ===== src/Store/Transcript.antt =====
-- The input and output that the sink stores, as the event repository shows it: `record_calls` and
-- `fetch_io_chunks` together.
use shellspectre.Base.{
  some, none, false, ◌==◌, ◌&&◌, ◌||◌, ◌∷◌, Text, text_eq, any, unwrap_or, if◌then◌else◌, arith,
  All, if-both, any-append, ◌≡◌, refl, ap, sym, [], ◌∙◌, List, ◌++◌, Option, ℕ, Bool,
}
use shellspectre.Handler.{SinkCall}
use shellspectre.Reads.Chunks.{
  chunks_on, chunks_on-map, with_data, with_same_data, io_rows, fetch_io_chunks-chunks_on,
  chunk_of-ext, is_io_of-ext,
}
use shellspectre.Database.{Row}
use shellspectre.Reads.{
  keep_rows, EventDetail, EventSummary, is_stdin, is_stdout, is_io_of, fetch_io_chunks,
}
use shellspectre.Store.Entries.{row_entry}
use shellspectre.Store.Log.{log_of, record_calls-log_of}
use shellspectre.Store.{Surroundings, empty_database, record_calls}

chunks_on-log_of :
    (test : Option ℕ → Bool) (summary : EventSummary) (calls : List (Surroundings × SinkCall))
    → chunks_on test (io_rows summary (record_calls calls empty_database).events)
      ≡ chunks_on test (io_rows summary (log_of [] calls))
chunks_on-log_of test summary calls =
    sym (
      chunks_on-map row_entry (is_io_of summary.session_id summary.pid summary.execution_id) test
        (λ row. is_io_of-ext _ _ _ (row_entry row) row refl refl refl refl) (λ row. refl)
        (λ row. chunk_of-ext (row_entry row) row refl refl refl)
        (record_calls calls empty_database).events)
    ∙ ap (λ rows. chunks_on test (io_rows summary rows)) (record_calls-log_of calls)

-- The detail of an event shows as input the chunks of descriptor 0 and as output those of descriptors 1
-- and 2 of the log of the sink's calls that belong to the event's execution, complete and in their order.
stored_io :
    (calls : List (Surroundings × SinkCall)) (detail : EventDetail)
    → fetch_io_chunks (record_calls calls empty_database).events detail
      ≡ with_data
          (detail.stdin_data ++ chunks_on is_stdin (io_rows detail.summary (log_of [] calls)))
          (detail.stdout_data ++ chunks_on is_stdout (io_rows detail.summary (log_of [] calls)))
          detail
stored_io calls detail =
    fetch_io_chunks-chunks_on _ detail
    ∙ with_same_data _ _ _ _ detail
        (ap (λ c. detail.stdin_data ++ c) (chunks_on-log_of is_stdin detail.summary calls))
        (ap (λ c. detail.stdout_data ++ c) (chunks_on-log_of is_stdout detail.summary calls))

-- The rows of input and output of an execution, by the numbers that stand for the types.
abbrev pub ran_in : EventSummary → Row → Bool
ran_in event row =
    text_eq row.session_id event.session_id
    && (row.pid == event.pid)
    && (row.execution_id == event.execution_id)
    && ((row.event_type == 2) || (row.event_type == 3))

abbrev pub on_descriptors : List ℕ → Option ℕ → Bool
on_descriptors fds none = false
on_descriptors fds (some fd) = any (λ n. fd == n) fds

-- The payloads of the rows with one of the descriptors, one after the other.
abbrev pub payloads : List ℕ → List Row → Text
payloads fds [] = []
payloads fds (row ∷ rows) =
    let rest = payloads fds rows in
    if on_descriptors fds row.fd then unwrap_or row.payload [] ++ rest else rest

-- No escape sequence starts in the text.
abbrev pub IsPlain : Text → Type 0
IsPlain text = any (λ c. (c == 0x1b) || (c == 0x9b)) text ≡ false

pub payloads-IsPlain :
    (fds : List ℕ) (test : Row → Bool) (rows : List Row)
    → All (λ (row : Row). IsPlain (unwrap_or row.payload [])) rows
    → IsPlain (payloads fds (keep_rows test rows))
payloads-IsPlain fds test [] h = refl
payloads-IsPlain fds test (row ∷ rows) h =
    let rest = payloads-IsPlain fds test rows h.1 in
    if-both (λ kept. IsPlain (payloads fds kept)) (test row) (row ∷ keep_rows test rows)
      (keep_rows test rows)
      (λ _.
        if-both IsPlain (on_descriptors fds row.fd) _ _
          (λ _.
            any-append _ (unwrap_or row.payload []) (payloads fds (keep_rows test rows))
            ∙ ground (arith, h.0, rest))
          (λ _. rest))
      (λ _. rest)
