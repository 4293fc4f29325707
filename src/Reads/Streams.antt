-- ===== src/Reads/Streams.antt =====
-- The input and output that `get_detail` finds.
use shellspectre.Base.{ap, ◌∙◌, ◌==◌, ℕ, ◌≡◌, refl, sym, List, [], ◌∷◌, Option, none, some}
use mathlib.Core.Path.{subst}
use shellspectre.Database.{Row}
use shellspectre.Wire.{EventType, from_wire}
use shellspectre.Reads.Chunks.{chunks_on, io_rows, fetch_io_chunks-chunks_on}
use shellspectre.Reads.{
  EventDetail, EventSummary, Found, failed, missing, found, is_stdin, is_stdout, row_to_summary,
  detail_of, filled, detail_of_summary, detail_of_rows, get_detail, summary_of, map_option,
  keep_rows,
}

-- The chunks of the event are those of its execution in the table.
abbrev pub HasStreams : List Row → EventDetail → Type 0
HasStreams table d =
    (d.stdin_data ≡ chunks_on is_stdin (io_rows d.summary table))
    × (d.stdout_data ≡ chunks_on is_stdout (io_rows d.summary table))

abbrev pub FindsStreams : List Row → Found EventDetail → Type 0
FindsStreams table failed = Unit
FindsStreams table missing = Unit
FindsStreams table (found d) = HasStreams table d

filled-HasStreams :
    (table : List Row) (row : Row) (summary : EventSummary)
    → HasStreams table (filled table (detail_of row summary))
unfolding filled detail_of
filled-HasStreams table row summary =
    subst (HasStreams table) (sym (fetch_io_chunks-chunks_on table _)) (refl, refl)

detail_of_summary-FindsStreams :
    (table : List Row) (row : Row) (summary : Option EventSummary)
    → FindsStreams table (detail_of_summary table row summary)
unfolding detail_of_summary
detail_of_summary-FindsStreams table row none = tt
detail_of_summary-FindsStreams table row (some summary) = filled-HasStreams table row summary

detail_of_rows-FindsStreams :
    (table rows : List Row) → FindsStreams table (detail_of_rows table rows)
unfolding detail_of_rows
detail_of_rows-FindsStreams table [] = tt
detail_of_rows-FindsStreams table (row ∷ rows) =
    detail_of_summary-FindsStreams table row (row_to_summary row)

pub get_detail-HasStreams :
    (table : List Row) (id : ℕ) (detail : EventDetail)
    → get_detail table id ≡ found detail
    → HasStreams table detail
unfolding get_detail
get_detail-HasStreams table id detail h =
    subst (FindsStreams table) h (detail_of_rows-FindsStreams table _)

-- The detail that a row gives.
pub detail_from : List Row → Row → EventType → EventDetail
detail_from table row event_type = filled table (detail_of row (summary_of row event_type))

pub get_detail-row :
    (table : List Row) (id : ℕ) (row : Row) (rest : List Row) (event_type : EventType)
    → keep_rows (λ (r : Row). r.id == id) table ≡ row ∷ rest
    → from_wire row.event_type ≡ some event_type
    → get_detail table id ≡ found (detail_from table row event_type)
unfolding get_detail detail_of_rows detail_of_summary row_to_summary detail_from
get_detail-row table id row rest event_type h known =
    ap (detail_of_rows table) h
    ∙ ap (λ t. detail_of_summary table row (map_option (summary_of row) t)) known
