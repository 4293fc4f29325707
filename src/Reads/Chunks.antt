-- ===== src/Reads/Chunks.antt =====
-- The input and output of an execution: `fetch_io_chunks`.
use shellspectre.Base.{
  ℕ, ◌==◌, ◌&&◌, ◌||◌, text_eq, unwrap_or, ◌≡◌, refl, sym, ap, ◌∙◌, Bool, true, false, Option, none,
  some, List, [], ◌∷◌, ◌++◌, map, Text, arith, Bool-cases, inl, inr,
}
use mathlib.Core.List.{append-nil, append_assoc}
use shellspectre.Database.{Row}
use shellspectre.Wire.{as_wire}
use shellspectre.Reads.{
  EventDetail, EventSummary, IoChunk, keep_rows, is_stdin, is_stdout, is_io_of, chunk_of,
  push_chunks, fetch_io_chunks,
}

-- The chunks of the rows whose file descriptor passes the test.
abbrev pub chunks_on : (Option ℕ → Bool) → List Row → List IoChunk
chunks_on test rows = map chunk_of (keep_rows (λ row. test row.fd) rows)

abbrev pub with_data : List IoChunk → List IoChunk → EventDetail → EventDetail
with_data ins outs detail = record detail { stdin_data = ins; stdout_data = outs }

pub with_same_data :
    (ins ins' outs outs' : List IoChunk) (detail : EventDetail)
    → ins ≡ ins'
    → outs ≡ outs'
    → with_data ins outs detail ≡ with_data ins' outs' detail
with_same_data ins ins' outs outs' detail p q =
    ap (λ i. with_data i outs detail) p ∙ ap (λ o. with_data ins' o detail) q

stdin_not_stdout : (fd : Option ℕ) → is_stdin fd ≡ true → is_stdout fd ≡ false
unfolding is_stdin is_stdout
stdin_not_stdout none h = refl
stdin_not_stdout (some fd) h = ground arith

push_chunks-chunks_on :
    (rows : List Row) (detail : EventDetail)
    → push_chunks rows detail
      ≡ with_data
          (detail.stdin_data ++ chunks_on is_stdin rows)
          (detail.stdout_data ++ chunks_on is_stdout rows)
          detail
unfolding push_chunks
push_chunks-chunks_on [] detail =
    with_same_data _ _ _ _ detail (sym (append-nil detail.stdin_data))
      (sym (append-nil detail.stdout_data))
push_chunks-chunks_on (row ∷ rows) detail =
    let rest = push_chunks-chunks_on rows in
    elim (Bool-cases (is_stdin row.fd)) [
      | inl i ↦
          rw (i, stdin_not_stdout row.fd i)
            (rest _ ∙ with_same_data _ _ _ _ detail (append_assoc detail.stdin_data _ _) refl)
      | inr n ↦ elim (Bool-cases (is_stdout row.fd)) [
        | inl o ↦
            rw (n, o)
              (rest _ ∙ with_same_data _ _ _ _ detail refl (append_assoc detail.stdout_data _ _))
        | inr m ↦ rw (n, m) (rest detail)
      ]
    ]

keep_rows-map :
    (f : Row → Row) (test : Row → Bool)
    → ((row : Row) → test (f row) ≡ test row)
    → (rows : List Row) → keep_rows test (map f rows) ≡ map f (keep_rows test rows)
keep_rows-map f test same [] = refl
keep_rows-map f test same (row ∷ rows) =
    let rest = keep_rows-map f test same rows in
    elim (Bool-cases (test row)) [
      | inl h ↦ rw (same row, h) (ap (λ r. f row ∷ r) rest)
      | inr h ↦ rw (same row, h) rest
    ]

map-map-chunk_of :
    (f : Row → Row)
    → ((row : Row) → chunk_of (f row) ≡ chunk_of row)
    → (rows : List Row) → map chunk_of (map f rows) ≡ map chunk_of rows
map-map-chunk_of f same [] = refl
map-map-chunk_of f same (row ∷ rows) = rw (same row, map-map-chunk_of f same rows) refl

-- What the queries of input and output do not read makes no difference to the chunks.
pub chunks_on-map :
    (f : Row → Row) (keep : Row → Bool) (test : Option ℕ → Bool)
    → ((row : Row) → keep (f row) ≡ keep row)
    → ((row : Row) → (f row).fd ≡ row.fd)
    → ((row : Row) → chunk_of (f row) ≡ chunk_of row)
    → (rows : List Row)
    → chunks_on test (keep_rows keep (map f rows)) ≡ chunks_on test (keep_rows keep rows)
chunks_on-map f keep test keeps fds chunks rows =
    ap (chunks_on test) (keep_rows-map f keep keeps rows)
    ∙ ap (map chunk_of)
        (keep_rows-map f (λ row. test row.fd) (λ row. ap test (fds row)) (keep_rows keep rows))
    ∙ map-map-chunk_of f chunks _

-- The rows of input and output of the execution of an event.
abbrev pub io_rows : EventSummary → List Row → List Row
io_rows summary = keep_rows (is_io_of summary.session_id summary.pid summary.execution_id)

-- The input and the output of an event are the chunks of its execution, each in the order of the table.
pub fetch_io_chunks-chunks_on :
    (table : List Row) (detail : EventDetail)
    → fetch_io_chunks table detail
      ≡ with_data
          (detail.stdin_data ++ chunks_on is_stdin (io_rows detail.summary table))
          (detail.stdout_data ++ chunks_on is_stdout (io_rows detail.summary table))
          detail
unfolding fetch_io_chunks
fetch_io_chunks-chunks_on table detail = push_chunks-chunks_on (io_rows detail.summary table) detail

pub chunk_of-ext :
    (row row' : Row)
    → row.timestamp ≡ row'.timestamp
    → row.payload ≡ row'.payload
    → row.byte_count ≡ row'.byte_count
    → chunk_of row ≡ chunk_of row'
unfolding chunk_of
chunk_of-ext row row' t p b = rw (t, p, b) refl

pub is_io_of-ext :
    (session_id : Text) (pid execution_id : ℕ) (row row' : Row)
    → row.session_id ≡ row'.session_id
    → row.pid ≡ row'.pid
    → row.execution_id ≡ row'.execution_id
    → row.event_type ≡ row'.event_type
    → is_io_of session_id pid execution_id row ≡ is_io_of session_id pid execution_id row'
unfolding is_io_of
is_io_of-ext session_id pid execution_id row row' s p e t = rw (s, p, e, t) refl

pub keep_rows-ext :
    {test test' : Row → Bool}
    → ((row : Row) → test row ≡ test' row)
    → (rows : List Row) → keep_rows test rows ≡ keep_rows test' rows
keep_rows-ext same [] = refl
keep_rows-ext same (row ∷ rows) = rw (same row, keep_rows-ext same rows) refl

pub is_io_of_types :
    (event : EventSummary) (row : Row)
    → is_io_of event.session_id event.pid event.execution_id row ≡ (
        text_eq row.session_id event.session_id
        && (row.pid == event.pid)
        && (row.execution_id == event.execution_id)
        && ((row.event_type == 2) || (row.event_type == 3)))
unfolding is_io_of as_wire
is_io_of_types event row = refl

pub is_stdin-none : is_stdin none ≡ false
unfolding is_stdin
is_stdin-none = refl

pub is_stdin-some : (fd : ℕ) → is_stdin (some fd) ≡ (fd == 0)
unfolding is_stdin
is_stdin-some fd = refl

pub is_stdout-none : is_stdout none ≡ false
unfolding is_stdout
is_stdout-none = refl

pub is_stdout-some : (fd : ℕ) → is_stdout (some fd) ≡ ((fd == 1) || (fd == 2))
unfolding is_stdout
is_stdout-some fd = refl

pub chunk_of_payload : (row : Row) → (chunk_of row).payload ≡ unwrap_or row.payload []
unfolding chunk_of
chunk_of_payload row = refl
