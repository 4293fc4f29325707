-- ===== src/Routes/Tests.antt =====
-- The events of the stream.
use shellspectre.Base.{[], ◌∷◌, ◌++◌, ◌≡◌, refl, Text, codes, split_by}
use shellspectre.Routes.{
  SseMergeMode, mode_name, strip_cr, line_pieces, text_lines, sse_patch_elements,
}
use shellspectre.Routes.Sse.{is_line_break, element_lines, split_by-sse_patch_elements}

abbrev table_row : Text
table_row = codes "<tr>\r\n</tr>\n"

table_row_lines : text_lines table_row ≡ codes "<tr>" ∷ codes "</tr>" ∷ []
unfolding text_lines line_pieces strip_cr split_by
table_row_lines = refl

split_by-sse_patch_elements_example :
    split_by is_line_break (sse_patch_elements table_row (codes "#event-rows") SseMergeMode.append)
    ≡ (codes "selector " ++ codes "#event-rows")
      ∷ (codes "mode " ++ mode_name SseMergeMode.append)
      ∷ element_lines (text_lines table_row)
split_by-sse_patch_elements_example =
    split_by-sse_patch_elements table_row (codes "#event-rows") SseMergeMode.append refl
