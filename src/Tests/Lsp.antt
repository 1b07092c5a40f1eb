-- ===== src/Tests/Lsp.antt =====
-- The JSON reader at concrete texts, and its theorems applied.
use nullprt.Lsp.Json.Ends.{json_parse_answers}
use nullprt.Base.{Option, is_digit, starts_with, [], ◌∷◌, true, none, some, refl, ◌≡◌, arith, codes}
use nullprt.Lsp.Json.{
  json_obj_get, json_parse, match, parse_num, parse_str, parse_val, parse_word, span_digits,
  span_num, str_body, ws, ◌>>=◌, JVal, j_null, j_bool, j_num, j_str, j_arr, j_obj, no_items, item,
  no_entries, entry,
}
use nullprt.Lsp.Json.RoundTrip.Values.{json_parse-write}
use nullprt.Lsp.Json.RoundTrip.{
  write, IsJson, num_json, str_json, arr_json, obj_json, items_end, items_more, entries_end,
  entries_more, plain_byte, escape, no_more,
}
use nullprt.Lsp.Json.Numbers.{number, minus_sign, fraction, no_digits, digit}

-- What the runs compute with.
run : Unit {0}
unfolding json_parse parse_val parse_str parse_num parse_word str_body span_num span_digits ws match
    ◌>>=◌ json_obj_get is_digit starts_with
run = tt

blanks :
    json_parse (codes " { \"id\" : -12.5 , \"on\":[true,null] } ")
    ≡ some (
        some (
          j_obj (
            entry
              (codes "id")
              (j_num (codes "-12.5"))
              (entry (codes "on") (j_arr (item (j_bool true) (item j_null no_items))) no_entries))))
unfolding run
blanks = refl

-- A `-` alone is taken for a number, and nothing may stand behind the value.
lone_minus : json_parse (codes "-") ≡ some (some (j_num (codes "-")))
unfolding run
lone_minus = refl

two_values : json_parse (codes "1 2") ≡ some none
unfolding run
two_values = refl

json_parse_answers_example : (r : Option JVal) × (json_parse (codes "[1, {") ≡ some r)
json_parse_answers_example = json_parse_answers (codes "[1, {")

abbrev sample : JVal
sample = j_obj (
    entry (codes "a") (j_arr (item (j_num (codes "-1.5")) (item (j_str (codes "\\n")) no_items)))
      no_entries)

sample-IsJson : IsJson sample
unfolding is_digit
sample-IsJson = obj_json (
    entries_more (plain_byte refl refl no_more)
      (arr_json (
        items_more
          (num_json (
            number (b'-' ∷ []) b'1' [] (codes ".5") minus_sign refl no_digits
              (fraction (digit refl no_digits)) (omega arith)))
          (items_more (str_json (escape no_more)) items_end)))
      entries_end)

json_parse-write_example : json_parse (write sample) ≡ some (some sample)
json_parse-write_example = json_parse-write sample sample-IsJson
