-- ===== src/Live.antt =====
-- The live tail of events: `live_events` of shspectr-web/src/application/routes/api.rs.
pub mod Delivered
use shellspectre.Base.{
  ℕ, suc, ◌+◌, Bool, Option, none, some, List, [], ◌∷◌, ◌++◌, ℤ, pos, Text, length, Map, parse_i64,
}
use shellspectre.Database.{Row}
use shellspectre.Query.Parse.{EventFilter}
use shellspectre.Reads.{EventSummary, list_since, max_event_id}

-- What the stream sends.
pub data Message : Type 0 where
  keepalive : Message
  -- the rows, with the identifier of the event
  patch_elements : List EventSummary → ℕ → Message
  -- the live count
  patch_signals : ℕ → Message

-- `last_seen_id` and `live_count`
pub record Tail : Type 0 where
  pub last_seen_id : ℕ
  pub live_count : ℕ

-- `if initial_id > 0 { initial_id } else { max_event_id }`
start_id : Option ℤ → ℕ → ℕ
start_id (some (pos (suc n))) newest = suc n
start_id _ newest = newest

abbrev parse_header : Option Text → Option ℤ
parse_header none = none
parse_header (some header) = parse_i64 header

-- The state of a new stream, from the `Last-Event-ID` header.
pub start_tail : Option Text → List Row → Tail
unfolding start_id
start_tail header table = record {
  last_seen_id = start_id (parse_header header) (max_event_id table);
  live_count = 0;
}

last_event_id : ℕ → List EventSummary → ℕ
last_event_id held [] = held
last_event_id held (event ∷ events) = last_event_id event.id events

-- One tick, with what `list_since` returned.
tick : Option (List EventSummary) → Tail → List Message × Tail
unfolding last_event_id
tick none tail = (keepalive ∷ [], tail)
tick (some []) tail = (keepalive ∷ [], tail)
tick (some (event ∷ events)) tail =
    let last = last_event_id tail.last_seen_id (event ∷ events) in
    let count = tail.live_count + length (event ∷ events) in
    (
      patch_elements (event ∷ events) last ∷ patch_signals count ∷ [],
      record { last_seen_id = last; live_count = count },
    )

module _ (like : Text → Text → Bool) (users : Map Text) (filter : EventFilter) where
  pub poll : List Row → Tail → List Message × Tail
  unfolding tick
  poll table tail = tick (list_since like users table tail.last_seen_id filter) tail

  -- The stream over the contents of the table at its ticks.
  pub live_events : List (List Row) → Tail → List Message × Tail
  unfolding poll
  live_events [] tail = ([], tail)
  live_events (table ∷ tables) tail =
      let (sent, next) = poll table tail in
      let (later, end) = live_events tables next in (sent ++ later, end)
