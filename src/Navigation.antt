-- ===== src/Navigation.antt =====
-- The links of a listing: shspectr-web/src/presentation/web/listing.rs.
pub mod Encoding
mod Tests
use shellspectre.Base.{
  ℕ, Bool, true, false, [], ◌∷◌, ◌++◌, Text, codes, if◌then◌else◌, replace, unwrap_or,
}
use shellspectre.Listing.{
  SortDirection, asc, desc, toggle, direction_name, EventSortKey, timestamp, comm, exit_code,
  as_sql_column,
}
use shellspectre.Query.Parse.Print.{decimal}
use shellspectre.Query.Parse.{EventFilter}

pub record ListNavigator : Type 0 where
  pub query : Text
  pub sort : EventSortKey
  pub direction : SortDirection
  pub page_size : ℕ

-- `ListNavigator::new`
pub new_navigator : EventFilter → EventSortKey → SortDirection → ℕ → ListNavigator
new_navigator filter sort direction page_size = record {
  query = unwrap_or filter.raw [];
  sort = sort;
  direction = direction;
  page_size = page_size;
}

-- `urlencoded`
pub urlencoded : Text → Text
urlencoded s = replace b'#' (codes "%23") (
    replace b'=' (codes "%3D")
      (replace b'&' (codes "%26") (replace b' ' (codes "%20") (replace b'%' (codes "%25") s))))

-- the text of both links behind the number of the page
link_tail : ℕ → EventSortKey → SortDirection → Text → Text
unfolding urlencoded
link_tail page_size key dir query =
    codes "&page_size="
    ++ (decimal page_size
        ++ (codes "&sort="
            ++ (as_sql_column key
                ++ (codes "&dir=" ++ (direction_name dir ++ (codes "&q=" ++ urlencoded query))))))

-- `page_url`
pub page_url : ListNavigator → ℕ → Text
unfolding link_tail
page_url nav page =
    codes "/api/v1/events?page="
    ++ (decimal page ++ link_tail nav.page_size nav.sort nav.direction nav.query)

same_key : EventSortKey → EventSortKey → Bool
same_key timestamp timestamp = true
same_key comm comm = true
same_key exit_code exit_code = true
same_key _ _ = false

-- `sort_url`
pub sort_direction : ListNavigator → EventSortKey → SortDirection
unfolding same_key
sort_direction nav key = if same_key key nav.sort then toggle nav.direction else desc

pub sort_url : ListNavigator → EventSortKey → Text
unfolding link_tail sort_direction
sort_url nav key =
    codes "/api/v1/events?page=1" ++ link_tail nav.page_size key (sort_direction nav key) nav.query

arrow : SortDirection → Text
arrow asc = 0x20 ∷ 0x25b2 ∷ []
arrow desc = 0x20 ∷ 0x25bc ∷ []

-- `sort_indicator`
pub sort_indicator : ListNavigator → EventSortKey → Text
unfolding same_key arrow
sort_indicator nav key = if same_key key nav.sort then arrow nav.direction else []
