-- ===== src/Listing.antt =====
-- Pages of results: shspectr-web/src/domain/listing.rs.
pub mod Pages
use shellspectre.Base.{
  ℕ, ◌+◌, ◌-◌, ◌*◌, ◌/◌, ◌%◌, ◌^◌, Bool, List, ltb, ◌==◌, if◌then◌else◌, Text, codes,
}

pub data SortDirection : Type 0 where
  asc desc : SortDirection

-- `SortDirection::as_sql`
pub as_sql : SortDirection → Text
as_sql asc = codes "ASC"
as_sql desc = codes "DESC"

-- `SortDirection::toggle`
pub toggle : SortDirection → SortDirection
toggle asc = desc
toggle desc = asc

-- `SortDirection`'s `Display`
pub direction_name : SortDirection → Text
direction_name asc = codes "asc"
direction_name desc = codes "desc"

pub data EventSortKey : Type 0 where
  timestamp comm exit_code : EventSortKey

-- `EventSortKey::as_sql_column`, and its `Display`
pub as_sql_column : EventSortKey → Text
as_sql_column timestamp = codes "timestamp"
as_sql_column comm = codes "comm"
as_sql_column exit_code = codes "exit_code"

pub record ListRequest : Type 0 where
  pub page : ℕ
  pub page_size : ℕ
  pub sort : EventSortKey
  pub direction : SortDirection

-- what `list_events` makes of the page and page size that a query asks for
pub clamped : ℕ → ℕ → EventSortKey → SortDirection → ListRequest
clamped page page_size sort dir = record {
  page = if ltb page 1 then 1 else page;
  page_size = if ltb page_size 1 then 1 else if ltb 100 page_size then 100 else page_size;
  sort = sort;
  direction = dir;
}

-- `ListRequest::default`
abbrev pub default_request : ListRequest
default_request = record { page = 1; page_size = 25; sort = timestamp; direction = desc }

-- `ListRequest::offset`: the product of two `u32`s wraps in a release build
pub offset : ListRequest → ℕ
offset request = ((request.page - 1) * request.page_size) % 2 ^ 32

pub record Page {ℓ} (A : Type ℓ) : Type ℓ where
  pub items : List A
  pub page : ℕ
  pub page_size : ℕ
  pub total_items : ℕ

-- `u64::div_ceil`, for a divisor that is not 0
div_ceil : ℕ → ℕ → ℕ
div_ceil a b = if a % b == 0 then a / b else a / b + 1

-- `Page::total_pages`
pub total_pages {ℓ} : {A : Type ℓ} → Page A → ℕ
unfolding div_ceil
total_pages p =
    if p.total_items == 0
    then 1
    else let pages = div_ceil p.total_items p.page_size in
      if ltb pages (2 ^ 32) then pages else 2 ^ 32 - 1

-- `Page::has_next`
pub has_next {ℓ} : {A : Type ℓ} → Page A → Bool
unfolding total_pages
has_next p = ltb p.page (total_pages p)

-- `Page::has_prev`
pub has_prev {ℓ} : {A : Type ℓ} → Page A → Bool
has_prev p = ltb 1 p.page
