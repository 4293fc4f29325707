-- ===== src/Routes/Details.antt =====
-- The panel and the raw streams of an event: `get_event_detail` and `get_event_raw` of
-- shspectr-web/src/application/routes/api.rs.
use shellspectre.Base.{ℕ, Option, none, some, List, ◌≡◌, ap, Map, Text}
use shellspectre.Database.{Row}
use shellspectre.Presentation.Detail.{EventDetailView, detail_view}
use shellspectre.Presentation.{chunk_text}
use shellspectre.Reads.{EventDetail, Found, failed, missing, found, get_detail}

pub data StreamKind : Type 0 where
  stdin stdout : StreamKind

-- What the two routes answer: the event is not there, an error, or a body.
pub data DetailResponse : Type 0 where
  not_found internal_server_error : DetailResponse
  ok : Text → DetailResponse

-- `params.stream.unwrap_or(StreamKind::Stdout)`, and the data of the stream
raw_stream : Option StreamKind → EventDetail → Text
raw_stream (some stdin) detail = chunk_text detail.stdin_data
raw_stream (some stdout) detail = chunk_text detail.stdout_data
raw_stream none detail = chunk_text detail.stdout_data

raw_of : Option StreamKind → Found EventDetail → DetailResponse
unfolding raw_stream
raw_of stream failed = internal_server_error
raw_of stream missing = not_found
raw_of stream (found detail) = ok (raw_stream stream detail)

-- `get_event_raw`
pub get_event_raw : List Row → ℕ → Option StreamKind → DetailResponse
unfolding raw_of
get_event_raw table id stream = raw_of stream (get_detail table id)

-- The raw streams of an event that is found.
pub get_event_raw-found :
    (table : List Row) (id : ℕ) (detail : EventDetail)
    → get_detail table id ≡ found detail
    → (get_event_raw table id (some stdin) ≡ ok (chunk_text detail.stdin_data))
      × (get_event_raw table id (some stdout) ≡ ok (chunk_text detail.stdout_data))
unfolding get_event_raw
get_event_raw-found table id detail h = (ap (raw_of (some stdin)) h, ap (raw_of (some stdout)) h)

rendered : Option Text → DetailResponse
rendered none = internal_server_error
rendered (some html) = ok html

-- `render` is the template of the panel; nothing is its error.
module _ (parse_json : Text → Option (List Text)) (convert : Text → Option Text) (users : Map Text)
    (render : EventDetailView → Option Text) where
  panel_of : Found EventDetail → DetailResponse
  unfolding rendered
  panel_of failed = internal_server_error
  panel_of missing = not_found
  panel_of (found detail) = rendered (render (detail_view parse_json convert users detail))

  -- `get_event_detail`
  pub get_event_detail : List Row → ℕ → DetailResponse
  unfolding panel_of
  get_event_detail table id = panel_of (get_detail table id)
