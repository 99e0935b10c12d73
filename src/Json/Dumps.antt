-- ===== src/Json/Dumps.antt =====
-- `json.dumps(value, sort_keys=True, separators=(",", ":"), ensure_ascii=True)`.
use Prim.Native.Char.{code}
use Prim.Native.String
use text.Mathlib.Text.{is_le}
use agent_force.Prelude.{
  ℕ, ◌+◌, ◌-◌, ◌/◌, ◌%◌, String, true, false, List, [], ◌∷◌, ◌≡◌, refl, ◌&&◌, nat_eq, ltb, leb,
  if◌then◌else◌,
}
use agent_force.Prelude.Text.{◌&◌, join, show_hex}
use agent_force.Json.Values.{
  Json, null, bool, num, string, arr, obj, Items, nil, cons, Fields, end, field,
}

encode_char : ℕ → String → String
encode_char c s =
    if nat_eq c 34
    then "\\\""
    else if nat_eq c 92
    then "\\\\"
    else if nat_eq c 10
    then "\\n"
    else if nat_eq c 13
    then "\\r"
    else if nat_eq c 9
    then "\\t"
    else if nat_eq c 12
    then "\\f"
    else if nat_eq c 8
    then "\\b"
    else if leb 32 c && leb c 126
    then s
    else if ltb c 0x10000
    then "\\u" & show_hex 4 c
    else "\\u"
      & show_hex 4 (0xd800 + (c - 0x10000) / 1024)
      & "\\u"
      & show_hex 4 (0xdc00 + (c - 0x10000) % 1024)

encode_chars : String → String
encode_chars String.[] = ""
encode_chars (String.◌∷◌ c s) = encode_char (code c) (String.◌∷◌ c "") & encode_chars s

pub encode_string : String → String
unfolding encode_chars encode_char show_hex
encode_string s = "\"" & encode_chars s & "\""

-- One entry put in its place among entries in the order of their keys.
unfoldable pub insert_by_key : String → String → List (String × String) → List (String × String)
insert_by_key k v [] = (k, v) ∷ []
insert_by_key k v ((j, w) ∷ r) =
    if is_le (String.compare k j) then (k, v) ∷ (j, w) ∷ r else (j, w) ∷ insert_by_key k v r

entries : List (String × String) → List String
entries [] = []
entries ((k, v) ∷ r) = (encode_string k & ":" & v) ∷ entries r

pub braces : List (String × String) → String
unfolding entries encode_string
braces es = "{" & join "," (entries es) & "}"

unfoldable mutual
  pub dumps : Json → String
  dumps null = "null"
  dumps (bool true) = "true"
  dumps (bool false) = "false"
  dumps (num t) = t
  dumps (string t) = encode_string t
  dumps (arr xs) = "[" & join "," (dump_items xs) & "]"
  dumps (obj fs) = braces (sorted_entries fs)

  pub dump_items : Items → List String
  dump_items nil = []
  dump_items (cons x xs) = dumps x ∷ dump_items xs

  pub sorted_entries : Fields → List (String × String)
  sorted_entries end = []
  sorted_entries (field k v fs) = insert_by_key k (dumps v) (sorted_entries fs)

unfoldable pub dumps_test :
    dumps (obj (field "b" (arr (cons (num "1") (cons null nil))) (field "a" (string "x\"") end)))
    ≡ "{\"a\":\"x\\\"\",\"b\":[1,null]}"
unfolding dumps sorted_entries dump_items braces encode_string insert_by_key join
dumps_test = refl
