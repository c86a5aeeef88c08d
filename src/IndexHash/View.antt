-- ===== src/IndexHash/View.antt =====
-- The index as a map from keys to the items inserted under them, newest first.
use data_agent_demo.Prelude.{
  ℕ, zero, suc, ◌%◌, ◌<◌, ◌≡◌, refl, ◌∙◌, false, none, some, List, [], ◌∷◌, ◌==◌, if◌then◌else◌,
  length, get_elem?, set, arith, length-set,
}
use data_agent_demo.Run.{ok}
use data_agent_demo.System.{rcok}
use data_agent_demo.Row.{Table}
use data_agent_demo.IndexHash.{
  Item, BucketNode, BucketHeader, IndexHash, init_bucket, init_for, insert_node, find_items, first,
  locate, index_insert, index_read,
}

-- The newest item of `key` in the first part. Only this part is in use.
abbrev chain_at : List BucketHeader → ℕ → ℕ → List Item
chain_at part i key = elim (get_elem? part i) [ none ↦ [] | some b ↦ find_items key b.nodes ]

abbrev items_in : List (List BucketHeader) → ℕ → ℕ → List Item
items_in [] i key = []
items_in (part ∷ parts) i key = chain_at part i key

unfoldable pub items_of : IndexHash → ℕ → List Item
items_of index key = items_in index.buckets (key % index.bucket_cnt_per_part) key

-- No latch of the part is held.
abbrev pub AllFree : List BucketHeader → Type 0
AllFree [] = Unit {0}
AllFree (b ∷ bs) = (b.locked ≡ false) × AllFree bs

-- One part, with its buckets allocated and their latches free, on behalf of a table.
pub record IsReady (index : IndexHash) : Type 0 where
  pub part : List BucketHeader
  pub host : Table
  pub one_part : index.buckets ≡ part ∷ []
  pub hosted : index.table ≡ some host
  pub full : length part ≡ index.bucket_cnt_per_part
  pub some_bucket : 0 < index.bucket_cnt_per_part
  pub free : AllFree part

find_items-insert_node :
    (key other : ℕ) (item : Item) (ns : List BucketNode)
    → find_items other (insert_node key item ns)
      ≡ (if key == other then item ∷ find_items key ns else find_items other ns)
unfolding find_items insert_node
find_items-insert_node key other item [] = ground arith
find_items-insert_node key other item (n ∷ ns) =
    ground (arith, find_items-insert_node key other item ns)

bucket_at :
    (part : List BucketHeader) (i : ℕ)
    → i < length part
    → AllFree part
    → (b : BucketHeader) × (get_elem? part i ≡ some b) × (b.locked ≡ false)
bucket_at [] i h f = absurd (omega arith)
bucket_at (b ∷ bs) zero h f = (b, refl, f.0)
bucket_at (b ∷ bs) (suc i) h f = bucket_at bs i (omega arith) f.1

AllFree-set :
    (part : List BucketHeader) (i : ℕ) (b : BucketHeader)
    → AllFree part
    → b.locked ≡ false
    → AllFree (set part i b)
AllFree-set [] i b f e = tt
AllFree-set (c ∷ cs) zero b f e = (e, f.1)
AllFree-set (c ∷ cs) (suc i) b f e = (f.0, AllFree-set cs i b f.1 e)

-- `init (table)` gives a ready index with no items.
pub init_for-IsReady :
    (index : IndexHash) (host : Table)
    → (index' : IndexHash) × (init_for index (some host) ≡ ok index')
      × IsReady index'
      × ((key : ℕ) → items_of index' key ≡ [])
unfolding init_for items_of find_items
init_for-IsReady index host = (
  _,
  refl,
  record {
    part = init_bucket ∷ [];
    host = host;
    one_part = refl;
    hosted = refl;
    full = omega arith;
    some_bucket = omega arith;
    free = (refl, tt);
  },
  λ key. rw (mod_one key) refl,
)
  where
    mod_one : (key : ℕ) → key % 1 ≡ 0
    mod_one key = omega arith

chain_at-some :
    (part : List BucketHeader) (i key : ℕ) (b : BucketHeader)
    → get_elem? part i ≡ some b
    → chain_at part i key ≡ find_items key b.nodes
chain_at-some part i key b e = rw (e, chain_at) refl

chain_at-set :
    (part : List BucketHeader) (i j key : ℕ) (b : BucketHeader)
    → i < length part
    → chain_at (set part i b) j key
      ≡ (if i == j then find_items key b.nodes else chain_at part j key)
chain_at-set [] i j key b h = absurd (omega arith)
chain_at-set (c ∷ cs) zero zero key b h = refl
chain_at-set (c ∷ cs) zero (suc j) key b h = ground arith
chain_at-set (c ∷ cs) (suc i) zero key b h = ground arith
chain_at-set (c ∷ cs) (suc i) (suc j) key b h =
    chain_at-set cs i j key b (omega arith) ∙ ground arith

module _ (index : IndexHash) (ready : IsReady index) (key : ℕ) where
  slot : ℕ
  slot = key % index.bucket_cnt_per_part

  slot-lt : slot < index.bucket_cnt_per_part
  unfolding slot
  slot-lt = omega (arith, ready.some_bucket)

  home : (b : BucketHeader) × (get_elem? ready.part slot ≡ some b) × (b.locked ≡ false)
  home = bucket_at ready.part slot (omega (arith, ready.full, slot-lt)) ready.free

  locate_lem : locate index key 0 ≡ ok (slot, ready.part, home.0)
  unfolding locate slot
  locate_lem = ground (arith, ready.one_part, ready.some_bucket, slot-lt, home.1)

  items_of-part :
      (other : ℕ)
      → items_of index other ≡ chain_at ready.part (other % index.bucket_cnt_per_part) other
  unfolding items_of
  items_of-part other = rw ready.one_part refl

  items_of_home : items_of index key ≡ find_items key home.0.nodes
  unfolding slot
  items_of_home = items_of-part key ∙ chain_at-some ready.part slot key home.0 home.1

  -- A read of a ready index returns the newest item of the key, or `NULL` if it has none.
  pub index_read_lem : index_read index key 0 ≡ ok (rcok, first (items_of index key))
  unfolding index_read
  index_read_lem = rw (locate_lem, items_of_home) (ground (arith, ready.hosted))

  stored : Item → BucketHeader
  stored item = record home.0 { nodes = insert_node key item home.0.nodes; locked = false }

  after_insert : Item → IndexHash
  unfolding stored
  after_insert item = record index { buckets = set ready.part slot (stored item) ∷ [] }

  index_insert_lem : (item : Item) → index_insert index key item 0 ≡ ok (rcok, after_insert item)
  unfolding index_insert after_insert
  index_insert_lem item = rw locate_lem (ground (arith, ready.one_part, home.2))

  after_insert-IsReady : (item : Item) → IsReady (after_insert item)
  unfolding after_insert
  after_insert-IsReady item = record {
    part = set ready.part slot (stored item);
    host = ready.host;
    one_part = refl;
    hosted = ready.hosted;
    full = length-set ready.part slot (stored item) ∙ ready.full;
    some_bucket = ready.some_bucket;
    free = AllFree-set ready.part slot (stored item) ready.free refl;
  }

  items_of-after_insert :
      (item : Item) (other : ℕ)
      → items_of (after_insert item) other
        ≡ (if key == other then item ∷ items_of index key else items_of index other)
  unfolding items_of after_insert slot stored
  items_of-after_insert item other =
      let fits : slot < length ready.part = omega (arith, ready.full, slot-lt) in
      chain_at-set ready.part slot (other % index.bucket_cnt_per_part) other (stored item) fits
      ∙ ground (
        arith,
        find_items-insert_node key other item home.0.nodes,
        items_of-part other,
        items_of_home,
        chain_at-some ready.part slot other home.0 home.1,
      )

abbrev pub Inserts : IndexHash → ℕ → Item → Type 0
Inserts index key item =
    (index' : IndexHash) × (index_insert index key item 0 ≡ ok (rcok, index'))
    × IsReady index'
    × ((other : ℕ)
        → items_of index' other
          ≡ (if key == other then item ∷ items_of index key else items_of index other))

-- An insertion into a ready index succeeds and leaves it ready, with no latch held. The new item becomes the
-- newest of its key, in front of the older ones, and every other key keeps its items.
pub index_insert-items_of :
    (index : IndexHash) (key : ℕ) (item : Item) → IsReady index → Inserts index key item
index_insert-items_of index key item ready = (
  after_insert index ready key item,
  index_insert_lem index ready key item,
  after_insert-IsReady index ready key item,
  items_of-after_insert index ready key item,
)
