-- ===== src/Btf/Tests.antt =====
-- The parser at a file with one struct of one member.
use shellspectre.Base.{
  ℕ, ◌+◌, ◌*◌, ◌^◌, ◌≡◌, refl, List, [], ◌∷◌, ◌++◌, codes, text_eq, to_le, from_le, ok, err,
  is_utf8, le_at,
}
use shellspectre.Btf.{
  Btf, field_not_found, header_words, from_bytes, string, kind_at, vlen_at, members,
  is_named_struct, struct_field_offset, resolve_task_field_offsets,
}
use shellspectre.Btf.Walk.{Ends, resolve-Ends}
use shellspectre.Btf.Fields.{IsField, struct_field_offset-IsField}

abbrev strings : List ℕ
strings = 0 ∷ 115 ∷ 0 ∷ 102 ∷ 0 ∷ []

-- struct `s` with the member `f` at bit 64
abbrev types : List ℕ
types =
    to_le 4 1
    ++ (to_le 4 (4 * 2 ^ 24 + 1) ++ (to_le 4 16 ++ (to_le 4 3 ++ (to_le 4 0 ++ to_le 4 64))))

abbrev file : List ℕ
file =
    to_le 2 0xEB9F
    ++ (to_le 2 1
        ++ (to_le 4 24
            ++ (to_le 4 0 ++ (to_le 4 24 ++ (to_le 4 24 ++ (to_le 4 5 ++ (types ++ strings)))))))

abbrev small : Btf
small = record {
  bytes = file;
  hdr_len = 24;
  type_off = 0;
  type_len = 24;
  str_off = 24;
  str_len = 5;
}

reads_file : from_bytes file ≡ ok small
unfolding from_bytes header_words to_le from_le le_at
reads_file = refl

finds_field : struct_field_offset small (codes "s") (codes "f") ≡ ok 8
unfolding struct_field_offset to_le is_named_struct kind_at le_at string is_utf8 text_eq members
    vlen_at
finds_field = refl

misses_field : struct_field_offset small (codes "s") (codes "g") ≡ err field_not_found
unfolding struct_field_offset to_le is_named_struct kind_at le_at string is_utf8 text_eq members
    vlen_at
misses_field = refl

resolve-Ends_example : Ends (resolve_task_field_offsets file)
resolve-Ends_example = resolve-Ends file

struct_field_offset-IsField_example : IsField small (codes "s") (codes "f") 48 24 8
struct_field_offset-IsField_example =
    struct_field_offset-IsField small (codes "s") (codes "f") 8 finds_field
