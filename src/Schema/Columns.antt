-- ===== src/Schema/Columns.antt =====
-- The column lines of a schema file.
use mathlib.Core.List.{append_assoc, append-nil}
use data_agent_demo.Prelude.{
  ℕ, ◌+◌, ◌≤◌, ◌<◌, ◌≡◌, ◌≢◌, refl, sym, ap, ◌∙◌, false, List, [], ◌∷◌, ◌++◌, map, arith, ◌==◌,
  length, ◌%◌, length-append,
}
use data_agent_demo.Run.{ok}
use data_agent_demo.System.{word32}
use data_agent_demo.Bytes.{Bytes, c_str}
use data_agent_demo.Catalog.{Catalog, Column, field_cnt}
use data_agent_demo.Catalog.Layout.{IsLaidOut, with_col, add_col-eq-ok, add_col-IsLaidOut}
use data_agent_demo.Schema.{tokens_on, atoi, add_elements, add_columns}

-- A column as the file describes it: the text of its size, its type and its name.
pub record ColumnText : Type 0 where
  pub size : Bytes
  pub type : Bytes
  pub name : Bytes

abbrev pub printed : ColumnText → Bytes
printed c = c.size ++ b',' ∷ (c.type ++ b',' ∷ c.name)

abbrev pub NoComma : Bytes → Type 0
NoComma [] = Unit {0}
NoComma (c ∷ cs) = (c ≢ b',') × NoComma cs

-- The three texts have no comma, the name is not empty and, like the type, fits its buffer, and the size reads
-- as `n`.
pub record IsColumn (c : ColumnText) (n : ℕ) : Type 0 where
  pub size_plain : NoComma c.size
  pub type_plain : NoComma c.type
  pub name_plain : NoComma c.name
  pub named : c.name ≢ []
  pub type_short : length (c_str c.type) < 80
  pub name_short : length (c_str c.name) < 80
  pub reads : atoi c.size ≡ ok n

abbrev pub AllColumns : List ColumnText → List ℕ → Type 0
AllColumns [] [] = Unit {0}
AllColumns (c ∷ cs) (n ∷ ns) = IsColumn c n × AllColumns cs ns
AllColumns _ _ = ⊥

abbrev pub total : List ℕ → ℕ
total [] = 0
total (n ∷ ns) = n + total ns

-- The columns of these texts and sizes, numbered from `id` and placed one behind the other from `start`.
abbrev pub described : ℕ → ℕ → List ColumnText → List ℕ → List Column
unfolding c_str
described id start [] ns = []
described id start (c ∷ cs) [] = []
described id start (c ∷ cs) (n ∷ ns) =
    record { id = id; size = n; index = start; type = c_str c.type; name = c_str c.name }
    ∷ described (id + 1) (start + n) cs ns

not_comma : (c : ℕ) → c ≢ b',' → (c == b',') ≡ false
not_comma c ne = ground arith

pub tokens_on-comma :
    (token w rest : Bytes)
    → NoComma w
    → tokens_on token (w ++ b',' ∷ rest) ≡ (token ++ w) ∷ tokens_on [] rest
unfolding tokens_on
tokens_on-comma token [] rest h = ap (λ (t : Bytes). t ∷ tokens_on [] rest) (sym (append-nil token))
tokens_on-comma token (c ∷ w) rest h = rw (not_comma c h.0) (
    tokens_on-comma (token ++ c ∷ []) w rest h.1
    ∙ ap (λ (t : Bytes). t ∷ tokens_on [] rest) (append_assoc token (c ∷ []) w))

tokens_on-last :
    (c : ℕ) (token w : Bytes) → NoComma w → tokens_on (c ∷ token) w ≡ (c ∷ (token ++ w)) ∷ []
unfolding tokens_on
tokens_on-last c token [] h = ap (λ (t : Bytes). (c ∷ t) ∷ []) (sym (append-nil token))
tokens_on-last c token (d ∷ w) h = rw (not_comma d h.0) (
    tokens_on-last c (token ++ d ∷ []) w h.1
    ∙ ap (λ (t : Bytes). (c ∷ t) ∷ []) (append_assoc token (d ∷ []) w))

tokens_on-name : (w : Bytes) → w ≢ [] → NoComma w → tokens_on [] w ≡ w ∷ []
unfolding tokens_on
tokens_on-name [] ne h = absurd (ne refl)
tokens_on-name (c ∷ w) ne h = rw (not_comma c h.0) (tokens_on-last c [] w h.1)

-- A column line comes apart into the three texts.
tokens_on-printed :
    (c : ColumnText) (n : ℕ)
    → IsColumn c n
    → tokens_on [] (printed c) ≡ c.size ∷ c.type ∷ c.name ∷ []
tokens_on-printed c n h =
    tokens_on-comma [] c.size (c.type ++ b',' ∷ c.name) h.size_plain
    ∙ ap (◌∷◌ c.size) (
        tokens_on-comma [] c.type c.name h.type_plain
        ∙ ap (◌∷◌ c.type) (tokens_on-name c.name h.named h.name_plain))

-- The schema that the columns are added to, behind one more column.
abbrev grown : Catalog → ColumnText → ℕ → Catalog
unfolding c_str
grown schema c n = with_col schema (c_str c.name) n (c_str c.type)

add_elements-printed :
    (schema : Catalog) (c : ColumnText) (n : ℕ)
    → IsColumn c n
    → field_cnt schema < schema.capacity
    → add_elements schema (tokens_on [] (printed c)) ≡ ok (grown schema c n)
unfolding add_elements
add_elements-printed schema c n h room =
    rw (tokens_on-printed c n h, h.reads)
      (add_col-eq-ok schema (c_str c.name) n (c_str c.type) room h.type_short h.name_short)

-- The schema has all columns of `cs` behind its own, each with its name, type and size, and is laid out.
abbrev pub Extends : Catalog → List ColumnText → List ℕ → Type 0
Extends schema cs ns =
    (schema' : Catalog) × (add_columns schema (map printed cs) ≡ ok schema')
    × IsLaidOut schema'
    × (schema'.tuple_size ≡ schema.tuple_size + total ns)
    × (field_cnt schema' ≡ field_cnt schema + length cs)
    × (schema'.columns ≡ schema.columns ++ described (field_cnt schema) schema.tuple_size cs ns)
    × (schema'.table_name ≡ schema.table_name)

-- The columns of the first line and then those of the others.
grown-described :
    (schema : Catalog) (c : ColumnText) (n : ℕ) (cs : List ColumnText) (ns : List ℕ)
    → schema.tuple_size + n < word32
    → (grown schema c n).columns
        ++ described (field_cnt (grown schema c n)) (grown schema c n).tuple_size cs ns
      ≡ schema.columns ++ described (field_cnt schema) schema.tuple_size (c ∷ cs) (n ∷ ns)
unfolding c_str
grown-described schema c n cs ns small =
    let column : ℕ → Column = λ size. record {
      id = field_cnt schema;
      size = size;
      index = schema.tuple_size;
      type = c_str c.type;
      name = c_str c.name;
    } in
    let sized : n % word32 ≡ n = omega arith in
    let summed : (schema.tuple_size + n) % word32 ≡ schema.tuple_size + n = omega arith in
    ap
      (λ k.
        (schema.columns ++ column (n % word32) ∷ [])
        ++ described k ((schema.tuple_size + n) % word32) cs ns)
      (length-append schema.columns (column (n % word32) ∷ []))
    ∙ (rw (sized, summed)
        (append_assoc schema.columns (column n ∷ [])
          (described (field_cnt schema + 1) (schema.tuple_size + n) cs ns)))

-- The lines of columns whose texts are in order, with room for as many columns and sizes that do not wrap
-- around, add up to a schema that is laid out, with a column of the line's name, type and size for each line.
pub add_columns-printed :
    (cs : List ColumnText) (ns : List ℕ) (schema : Catalog)
    → AllColumns cs ns
    → IsLaidOut schema
    → field_cnt schema + length cs ≤ schema.capacity
    → schema.tuple_size + total ns < word32
    → Extends schema cs ns
unfolding add_columns
add_columns-printed [] [] schema h laid room small =
    (schema, refl, laid, omega arith, omega arith, sym (append-nil schema.columns), refl)
add_columns-printed [] (n ∷ ns) schema h laid room small = absurd h
add_columns-printed (c ∷ cs) [] schema h laid room small = absurd h
add_columns-printed (c ∷ cs) (n ∷ ns) schema h laid room small =
    let added =
      add_col-eq-ok schema (c_str c.name) n (c_str c.type) (omega arith) h.0.type_short
        h.0.name_short in
    let (laid', sized, counted) =
      add_col-IsLaidOut schema (c_str c.name) n (c_str c.type) (grown schema c n) laid (omega arith)
        added in
    let (schema', e, f, g, k, all, named) =
      add_columns-printed cs ns (grown schema c n) h.1 laid' (omega (arith, counted, room))
        (omega (arith, sized, small)) in
    (
      schema',
      rw (add_elements-printed schema c n h.0 (omega arith)) e,
      f,
      omega (arith, g, sized),
      omega (arith, k, counted),
      all ∙ grown-described schema c n cs ns (omega arith),
      named,
    )
