-- ===== src/Tests/Schemas.antt =====
-- The schema file of the server, Storage/test/data_schema.txt.
use data_agent_demo.Prelude.{◌≡◌, refl, none, Bool, false, ◌==◌, ◌||◌, [], ◌∷◌, arith}
use data_agent_demo.Bytes.{Bytes, codes, c_str}
use data_agent_demo.IndexHash.{IndexHash}
use data_agent_demo.Schema.{atoi}
use data_agent_demo.Schema.Columns.{ColumnText, IsColumn, NoComma}
use data_agent_demo.Schema.File.{Loads, init_schema-file}

abbrev key_text : ColumnText
key_text = record { size = codes "    128"; type = codes "string"; name = codes "KEY" }

abbrev value_text : ColumnText
value_text = record { size = codes "    1024"; type = codes "string"; name = codes "VALUE" }

abbrev has_comma : Bytes → Bool
has_comma [] = false
has_comma (c ∷ cs) = c == b',' || has_comma cs

plain : (w : Bytes) → has_comma w ≡ false → NoComma w
plain [] h = tt
plain (c ∷ cs) h = (ground arith, plain cs (ground arith))

key_text-IsColumn : IsColumn key_text 128
unfolding atoi c_str
key_text-IsColumn = record {
  size_plain = plain key_text.size refl;
  type_plain = plain key_text.type refl;
  name_plain = plain key_text.name refl;
  named = λ e. cc;
  type_short = omega arith;
  name_short = omega arith;
  reads = refl;
}

value_text-IsColumn : IsColumn value_text 1024
unfolding atoi c_str
value_text-IsColumn = record {
  size_plain = plain value_text.size refl;
  type_plain = plain value_text.type refl;
  name_plain = plain value_text.name refl;
  named = λ e. cc;
  type_short = omega arith;
  name_short = omega arith;
  reads = refl;
}

abbrev pub blank_index : IndexHash
blank_index = record { table = none; buckets = []; bucket_cnt = 0; bucket_cnt_per_part = 0 }

init_schema-file_example :
    Loads blank_index
      (codes "Data_TABLE")
      (key_text ∷ value_text ∷ [])
      (128 ∷ 1024 ∷ [])
      (codes "Data_INDEX")
      (codes "1")
unfolding c_str
init_schema-file_example =
    init_schema-file blank_index (codes "Data_TABLE") (codes "Data_INDEX") (codes "1")
      (key_text ∷ value_text ∷ []) (128 ∷ 1024 ∷ []) refl refl (plain (codes "Data_TABLE") refl)
      (key_text-IsColumn, (value_text-IsColumn, tt)) (omega arith)
