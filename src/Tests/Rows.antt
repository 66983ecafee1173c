-- ===== src/Tests/Rows.antt =====
-- Runs of the JSON texts of single records.
use luminix_experience_platf.Json.Escape.{escape_char}
use luminix_experience_platf.Json.Writer.Laws.{indent_text}
use luminix_experience_platf.Json.Row.{json_to_record, record_to_json}
use luminix_experience_platf.Json.Escape.Laws.{escape_all}
use luminix_experience_platf.Schema.{Record}
use luminix_experience_platf.Json.Numbers.{print_int}
use luminix_experience_platf.Json.Load.Rows.{column_index}
use luminix_experience_platf.Base.{pos, true, some, ◌≡◌, refl, arith}
use luminix_experience_platf.Base.{length, Bytes, str_eq}
use luminix_experience_platf.Json.Row.Laws.{row_text, items_text, item_text}
use luminix_experience_platf.Json.Save.Texts.{value_text}
use luminix_experience_platf.Json.Row.RoundTrip.{AreReadable, AreRead}
use luminix_experience_platf.Json.Row.RoundTrip.Whole.{json_to_record-record_to_json}
use luminix_experience_platf.Tests.Json.{members_apart, members_apart_read_back, a_library}
use luminix_experience_platf.Tests.Data.{users, user, granted}

abbrev row : Bytes
row = row_text a_library true users.columns (user 1 40)

row-length : length row ≡ 63
unfolding row_text items_text item_text value_text print_int indent_text
row-length = refl

row_readable : AreReadable users.columns (user 1 40) users.columns 0
unfolding column_index str_eq escape_all escape_char
row_readable = (
  (refl, refl, refl, refl, (omega arith, omega arith)),
  ((refl, refl, refl, refl, (omega arith, omega arith)), tt),
)

json_to_record-record_to_json_example :
    (text : Bytes) × (r' : Record) × (record_to_json a_library
        (λ n. true)
        true
        (some (user 1 40))
        (some users)
      ≡ some text)
    × (json_to_record granted members_apart (some text) (some users) ≡ some (some r'))
    × (r'.id ≡ pos 1)
    × (length r'.fields ≡ 2)
    × AreRead users.columns (user 1 40) users.columns 0 r'.fields
json_to_record-record_to_json_example =
    json_to_record-record_to_json a_library members_apart granted (λ n. true) true (user 1 40) users
      members_apart_read_back refl (λ n. refl) (omega (arith, row-length)) (omega arith)
      (omega arith) refl (omega arith) row_readable
