-- ===== src/Routes.antt =====
-- The list of events: `list_events` of shspectr-web/src/application/routes/api.rs, with Paginated of
-- shspectr-web/src/presentation/web/listing.rs.
pub mod Details
pub mod Sse
mod Tests
use shellspectre.Base.{
  ℕ, Bool, false, Option, none, some, List, [], ◌∷◌, ◌++◌, ◌==◌, Map, Text, codes, is_empty, map,
  join, split_by, if◌then◌else◌, unwrap_or, text_eq,
}
use shellspectre.Listing.{
  EventSortKey, SortDirection, ListRequest, clamped, Page, total_pages, has_next, has_prev,
}
use shellspectre.Navigation.{ListNavigator, new_navigator}
use shellspectre.Presentation.{EventSummaryView, summary_view}
use shellspectre.Query.Parse.{EventFilter, parse}
use shellspectre.Reads.{EventSummary, push_both, map_option}

pub record EventListParams : Type 0 where
  pub page : ℕ
  pub page_size : ℕ
  pub sort : EventSortKey
  pub dir : SortDirection
  pub q : Text
  pub append : Bool

pub record Paginated : Type 0 where
  pub items : List EventSummaryView
  pub page : ℕ
  pub page_size : ℕ
  pub total_items : ℕ
  pub total_pages : ℕ
  pub has_prev : Bool
  pub has_next : Bool
  pub warnings : List Text

pub data SseMergeMode : Type 0 where
  append replace outer prepend : SseMergeMode

-- `SseMergeMode::as_str`
pub mode_name : SseMergeMode → Text
mode_name append = codes "append"
mode_name replace = codes "replace"
mode_name outer = codes "outer"
mode_name prepend = codes "prepend"

strip_cr : Text → Text
strip_cr [] = []
strip_cr (c ∷ []) = if c == b'\r' then [] else c ∷ []
strip_cr (c ∷ d ∷ s) = c ∷ strip_cr (d ∷ s)

-- the last piece is a line only if it is not empty, and keeps a carriage return
line_pieces : List Text → List Text
unfolding strip_cr
line_pieces [] = []
line_pieces (last ∷ []) = if is_empty last then [] else last ∷ []
line_pieces (piece ∷ next ∷ rest) = strip_cr piece ∷ line_pieces (next ∷ rest)

-- `str::lines`
pub text_lines : Text → List Text
unfolding line_pieces
text_lines s = line_pieces (split_by (λ c. c == b'\n') s)

-- `sse_patch_elements`
pub sse_patch_elements : Text → Text → SseMergeMode → Text
unfolding text_lines
sse_patch_elements html selector mode =
    let elements = join (codes "\n") (map (λ line. codes "elements " ++ line) (text_lines html)) in
    codes "selector "
    ++ (selector ++ (codes "\nmode " ++ (mode_name mode ++ (codes "\n" ++ elements))))

-- `is_datastar_request`, on the value of the header
pub is_datastar_request : Option Text → Bool
is_datastar_request none = false
is_datastar_request (some value) = text_eq value (codes "true")

-- What `list_events` answers: a stream of events with their data, a JSON text, or an error.
pub data Response : Type 0 where
  internal_server_error : Response
  events : List Text → Response
  json : Text → Response

views : (Text → Option (List Text)) → Map Text → List EventSummary → Option (List EventSummaryView)
views parse_json users [] = some []
views parse_json users (s ∷ rest) =
    push_both (summary_view parse_json users s) (views parse_json users rest)

-- `Paginated::from_page_with_warnings`, and `Paginated::from` where there are no warnings: nothing is a
-- panic
pub paginated :
    (Text → Option (List Text)) → Map Text → Page EventSummary → List Text → Option Paginated
unfolding views
paginated parse_json users page warnings =
    map_option
      (λ items. record {
        items = items;
        page = page.page;
        page_size = page.page_size;
        total_items = page.total_items;
        total_pages = total_pages page;
        has_prev = has_prev page;
        has_next = has_next page;
        warnings = warnings;
      })
      (views parse_json users page.items)

-- The templates, which a package renders to HTML, and the JSON text of a page; nothing is an error.
pub record Templates : Type 0 where
  pub event_list : Paginated → ListNavigator → Option Text
  pub event_rows_append : Paginated → Option Text
  pub pagination : Paginated → ListNavigator → Option Text
  pub to_string : Page EventSummary → Option Text

module _ (templates : Templates) (parse_json : Text → Option (List Text)) (users : Map Text)
    (list : ListRequest → EventFilter → Option (Page EventSummary)) where
  append_events : Paginated → ListNavigator → Response
  unfolding sse_patch_elements
  append_events rows nav = events (
      sse_patch_elements (unwrap_or (templates.event_rows_append rows) []) (codes "#event-rows")
        append
      ∷ sse_patch_elements (unwrap_or (templates.pagination rows nav) [])
          (codes "#load-more-sentinel") replace
      ∷ [])

  -- `infinite_scroll_response`: nothing is a panic
  pub infinite_scroll_response : Page EventSummary → ListNavigator → Option Response
  unfolding append_events paginated
  infinite_scroll_response page nav =
      map_option (λ rows. append_events rows nav) (paginated parse_json users page [])

  list_event : Option Text → Response
  unfolding sse_patch_elements
  list_event none = internal_server_error
  list_event (some html) =
      events (sse_patch_elements html (codes "#event-list-container") outer ∷ [])

  json_response : Option Text → Response
  json_response none = internal_server_error
  json_response (some text) = json text

  respond : Bool → EventListParams → EventFilter → ListRequest → Page EventSummary → Option Response
  unfolding infinite_scroll_response list_event json_response paginated
  respond datastar params filter request page =
      let nav = new_navigator filter params.sort params.dir request.page_size in
      if datastar
      then if params.append
        then infinite_scroll_response page nav
        else map_option (λ rows. list_event (templates.event_list rows nav))
            (paginated parse_json users page filter.warnings)
      else some (json_response (templates.to_string page))

  respond_to :
      Bool
      → EventListParams
      → EventFilter
      → ListRequest
      → Option (Page EventSummary)
      → Option Response
  unfolding respond
  respond_to datastar params filter request none = some internal_server_error
  respond_to datastar params filter request (some page) =
      respond datastar params filter request page

  -- `list_events`: nothing is a panic
  pub list_events : Option Text → EventListParams → Option Response
  unfolding respond_to is_datastar_request
  list_events header params =
      let filter = parse params.q in
      let request = clamped params.page params.page_size params.sort params.dir in
      respond_to (is_datastar_request header) params filter request (list request filter)
