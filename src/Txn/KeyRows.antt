-- ===== src/Txn/KeyRows.antt =====
-- Rows of the server's table, by key and value, as Write and Read of Storage/System/txn.cpp use them.
use data_agent_demo.Prelude.{
  ℕ, ◌≤◌, ◌≡◌, refl, sym, ap, ◌∙◌, subst, true, some, [], ◌∷◌, ◌++◌, arith, length, zero, suc,
  get_elem?, take, drop, take-append-drop,
}
use data_agent_demo.Run.{ok}
use data_agent_demo.Bytes.{Bytes, c_str, c_string, text_buffer}
use data_agent_demo.Bytes.Laws.{slice, c_string-text_buffer, length-text_buffer}
use data_agent_demo.Bytes.Order.{strcmp_self}
use data_agent_demo.Catalog.{Column, get_field_index}
use data_agent_demo.Row.{Row, get_schema, get_value, set_value}
use data_agent_demo.Row.Fields.{
  IsSound, written, set_value_lem, slice-written_self, slice-written_ne, written-IsSound,
}
use data_agent_demo.Txn.Ops.{key_buffer, value_buffer, has_key}
use data_agent_demo.Row.{Table}
use data_agent_demo.Catalog.Layout.{IsLaidOut}

-- The text of a buffer of `n + 1` bytes that starts a tail of a row's bytes.
pub text_in :
    (bytes s : Bytes) (n size : ℕ)
    → take size bytes ≡ text_buffer n s
    → c_string bytes ≡ ok (take n (c_str s))
text_in bytes s n size e =
    ap c_string (sym (take-append-drop size bytes) ∙ ap (λ front. front ++ drop size bytes) e)
    ∙ c_string-text_buffer n s (drop size bytes)

-- The row has the two columns of the server's table, and the first has the key.
pub record HasKey (r : Row) (key : Bytes) : Type 0 where
  pub sound : IsSound r
  pub key_column : Column
  pub value_column : Column
  pub first : get_elem? (get_schema r).columns 0 ≡ some key_column
  pub second : get_elem? (get_schema r).columns 1 ≡ some value_column
  pub value_size : value_column.size ≡ 1024
  pub keyed : slice key_column.index key_column.size r.data_bytes ≡ key_buffer key
  pub short : length (c_str key) ≤ 127

pub take_short : (n : ℕ) (xs : Bytes) → length xs ≤ n → take n xs ≡ xs
take_short zero [] h = refl
take_short zero (x ∷ xs) h = absurd (omega (arith, h))
take_short (suc n) [] h = refl
take_short (suc n) (x ∷ xs) h = ap (◌∷◌ x) (take_short n xs (omega (arith, h)))

pub get_value_lem :
    (r : Row) (id : ℕ) (c : Column)
    → get_elem? (get_schema r).columns id ≡ some c
    → get_value r id ≡ ok (drop c.index r.data_bytes)
unfolding get_value get_field_index
get_value_lem r id c at = rw at refl

module _ (r : Row) (key : Bytes) (h : HasKey r key) where
  pub has_key_lem : has_key r key ≡ ok true
  unfolding has_key
  has_key_lem =
      rw
        (
          get_value_lem r 0 h.key_column h.first,
          text_in (drop h.key_column.index r.data_bytes) key 127 h.key_column.size h.keyed,
          take_short 127 (c_str key) h.short,
          strcmp_self (c_str key),
        )
        refl

  module _ (value : Bytes) where
    pub long : h.value_column.size ≤ length (value_buffer value)
    long = omega (arith, h.value_size, length-text_buffer 1023 value)

    -- the row with the value
    abbrev pub valued : Row
    valued = written r 1 h.value_column (value_buffer value) h.sound h.second long

    pub set_value_second : set_value r 1 (value_buffer value) ≡ ok valued
    set_value_second = set_value_lem r 1 h.value_column (value_buffer value) h.sound h.second long

    pub valued-HasKey : HasKey valued key
    valued-HasKey = record {
      sound = written-IsSound r 1 h.value_column (value_buffer value) h.sound h.second long;
      key_column = h.key_column;
      value_column = h.value_column;
      first = h.first;
      second = h.second;
      value_size = h.value_size;
      keyed =
          slice-written_ne r 1 h.value_column (value_buffer value) h.sound h.second long 0
            h.key_column h.first (λ e. absurd (omega (arith, e)))
          ∙ h.keyed;
      short = h.short;
    }

    -- and the text of its second column
    pub c_string-valued :
        c_string (drop h.value_column.index valued.data_bytes) ≡ ok (take 1023 (c_str value))
    c_string-valued =
        text_in (drop h.value_column.index valued.data_bytes) value 1023 h.value_column.size (
          slice-written_self r 1 h.value_column (value_buffer value) h.sound h.second long
          ∙ take_short h.value_column.size (value_buffer value)
              (omega (arith, h.value_size, length-text_buffer 1023 value)))

-- A row of the same table with the same bytes has the key, too.
pub HasKey-same :
    (r r' : Row) (key : Bytes)
    → r'.table ≡ r.table
    → r'.data_bytes ≡ r.data_bytes
    → HasKey r key
    → HasKey r' key
HasKey-same r r' key table bytes h =
    let columns : (get_schema r').columns ≡ (get_schema r).columns =
      ap (λ (t : Table). t.schema.columns) table in
    record {
      sound = (
        subst (λ (t : Table). IsLaidOut t.schema) (sym table) h.sound.0,
        ap length bytes ∙ (h.sound.1 ∙ ap (λ (t : Table). t.schema.tuple_size) (sym table)),
      );
      key_column = h.key_column;
      value_column = h.value_column;
      first = ap (λ cs. get_elem? cs 0) columns ∙ h.first;
      second = ap (λ cs. get_elem? cs 1) columns ∙ h.second;
      value_size = h.value_size;
      keyed = ap (slice h.key_column.index h.key_column.size) bytes ∙ h.keyed;
      short = h.short;
    }
