-- ===== src/Examples/Pages.antt =====
-- Pages of results.
use shellspectre.Base.{ℕ, ◌+◌, ◌/◌, ◌≤◌, ◌<◌, ◌≡◌, ◌↔◌, [], arith}
use shellspectre.Listing.{ListRequest, Page, offset, timestamp, desc}
use shellspectre.Listing.Pages.{offset_iff}

abbrev first_of_two : Page ℕ
first_of_two = record { items = []; page = 1; page_size = 25; total_items = 30 }

abbrev second : ListRequest
second = record { page = 2; page_size = 25; sort = timestamp; direction = desc }

offset_iff_example : ((offset second ≤ 27) × (27 < offset second + 25)) ↔ (2 ≡ 27 / 25 + 1)
offset_iff_example = offset_iff second 27 (omega arith) (omega arith) (omega arith)
