-- ===== src/IndexHash/History.antt =====
-- The index after a series of insertions.
use data_agent_demo.Prelude.{
  ℕ, ◌≡◌, refl, ap, ◌∙◌, Bool, true, false, Option, none, some, List, [], ◌∷◌, ◌==◌, if◌then◌else◌,
}
use data_agent_demo.Run.{Run, ok, ◌>>=◌}
use data_agent_demo.System.{rcok}
use data_agent_demo.Row.{Table}
use data_agent_demo.IndexHash.{Item, IndexHash, init_for, first, index_insert, index_read}
use data_agent_demo.IndexHash.View.{
  IsReady, items_of, init_for-IsReady, index_read_lem, index_insert-items_of,
}

-- `index_insert` of each key and item in turn, into the first part
unfoldable pub insert_all : IndexHash → List (ℕ × Item) → Run IndexHash
insert_all index [] = ok index
insert_all index ((key, item) ∷ later) = do
  (rc, index') ← index_insert index key item 0
  insert_all index' later

-- The last item of a series that has the key, or `older` if there is none.
abbrev pub newest : ℕ → Option Item → List (ℕ × Item) → Option Item
newest key older [] = older
newest key older ((other, item) ∷ later) =
    newest key (if other == key then some item else older) later

-- The insertions succeed, and each key then reads as the last item that was inserted under it, or as before.
abbrev pub ReadsNewest : IndexHash → List (ℕ × Item) → (ℕ → Option Item) → Type 0
ReadsNewest index series older =
    (index' : IndexHash) × (insert_all index series ≡ ok index')
    × ((key : ℕ) → index_read index' key 0 ≡ ok (rcok, newest key (older key) series))

insert_all-newest :
    (series : List (ℕ × Item)) (index : IndexHash)
    → IsReady index
    → ReadsNewest index series (λ key. first (items_of index key))
unfolding insert_all
insert_all-newest [] index ready = (index, refl, λ key. index_read_lem index ready key)
insert_all-newest ((key, item) ∷ later) index ready =
    let (index', e, ready', items) = index_insert-items_of index key item ready in
    let (last, f, reads) = insert_all-newest later index' ready' in
    (
      last,
      rw e f,
      λ other.
          reads other
          ∙ ap (λ older. ok (rcok, newest other older later))
              (ap first (items other)
                ∙ front (key == other) (items_of index key) (items_of index other)),
    )
  where
    front :
        (b : Bool) (xs ys : List Item)
        → first (if b then item ∷ xs else ys) ≡ (if b then some item else first ys)
    front true xs ys = refl
    front false xs ys = refl

-- A fresh index takes any series of insertions, under any keys, and a read of a key then returns the last item that
-- was inserted under it, or `NULL` if there was none.
pub index_read-newest :
    (blank : IndexHash) (host : Table) (series : List (ℕ × Item))
    → (index : IndexHash) × (init_for blank (some host) ≡ ok index)
      × ReadsNewest index series (λ key. none)
index_read-newest blank host series =
    let (index, made, ready, no_items) = init_for-IsReady blank host in
    let (last, e, reads) = insert_all-newest series index ready in
    (
      index,
      made,
      (
        last,
        e,
        λ key. reads key ∙ ap (λ items. ok (rcok, newest key (first items) series)) (no_items key),
      ),
    )
