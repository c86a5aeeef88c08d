-- ===== src/World/Latches.antt =====
-- The latching loops of OptCC::validate, of several transactions at once: who waits for whose latch.
use data_agent_demo.Prelude.{
  ℕ, zero, suc, ◌-◌, ◌<◌, ◌≡◌, ◌≢◌, refl, sym, ap, ◌∙◌, subst, some, List, [], ◌∷◌, ◌++◌, arith,
  length, get_elem?, take,
}
use data_agent_demo.Run.{ok}
use data_agent_demo.Bytes.Laws.{take-append_all}
use data_agent_demo.Database.{Database}
use data_agent_demo.Txn.{Access, Txn}
use data_agent_demo.Txn.Validate.{orig, sort}
use data_agent_demo.Txn.Accesses.{All, All-map, All-perm, Distinct, Distinct-perm}
use data_agent_demo.Txn.Sort.{Live, length_perm}
use data_agent_demo.Txn.Ascends.{Le, Le_self, Le_trans, Ordered, sort-Ascends}
use data_agent_demo.World.Alls.{All-get}
use data_agent_demo.World.Evolve.{ok_same, some_same}

-- Entries whose rows have one table and one primary key have one row: `record_pos` has one place for a key.
abbrev pub Keyed : Database → List Access → Type 0
Keyed db used = All (λ a. All (λ b. Le db a b → Le db b a → a.orig_row ≡ b.orig_row) used) used

-- A transaction in the latching loop: it has sorted its access set, and has latched so many rows from the front.
-- Names of tables and keys of rows never change, so the sorts of all can be taken on one database.
pub record Validator (db : Database) : Type 0 where
  pub txn : Txn
  pub used : List Access
  pub spare : List Access
  pub split : txn.accesses ≡ used ++ spare
  pub counted : length used ≡ txn.row_cnt
  pub live : All (Live db) used
  pub distinct : Distinct used
  pub keyed : Keyed db used
  pub sorted : List Access
  pub sorts : sort db (txn.row_cnt - 1) txn.accesses ≡ ok sorted
  pub latched : ℕ

-- the rows of the loop, in its order
abbrev pub rows_of : {db : Database} → Validator db → List Access
rows_of v = take v.txn.row_cnt v.sorted

-- The loop is at this entry, and the entry is one of those behind it.
abbrev pub Wants : {db : Database} → Validator db → Access → Type 0
Wants v a = get_elem? (rows_of v) v.latched ≡ some a

abbrev pub Holds : {db : Database} → Validator db → Access → Type 0
Holds v b = (i : ℕ) × (i < v.latched) × (get_elem? (rows_of v) i ≡ some b)

-- The first wants a row that the second has latched.
abbrev pub Waits : {db : Database} → Validator db → Validator db → Type 0
Waits v u = (a b : Access) × Wants v a × Holds u b × (a.orig_row ≡ b.orig_row)

-- The second waits for one that waits for …, which waits for the first.
pub data Chain {db : Database} (w : Validator db) : Validator db → Type 0 where
  one : {v : Validator db} → Waits v w → Chain w v
  more : {v u : Validator db} → Waits v u → Chain w u → Chain w v

module _ (db : Database) where
  pub Ordered-get :
      (xs : List Access) (i j : ℕ) (a b : Access)
      → Ordered db xs
      → i < j
      → get_elem? xs i ≡ some a
      → get_elem? xs j ≡ some b
      → Le db a b
  Ordered-get [] i j a b h lt e f = cc e
  Ordered-get (x ∷ xs) zero zero a b h lt e f = absurd (omega (arith, lt))
  Ordered-get (x ∷ xs) zero (suc j) a b h lt e f =
      subst (λ y. Le db y b) (some_same e) (All-get _ xs j b f h.0)
  Ordered-get (x ∷ xs) (suc i) zero a b h lt e f = absurd (omega (arith, lt))
  Ordered-get (x ∷ xs) (suc i) (suc j) a b h lt e f =
      Ordered-get xs i j a b h.1 (omega (arith, lt)) e f

  pub Distinct-get :
      (xs : List Access) (i j : ℕ) (a b : Access)
      → Distinct xs
      → i < j
      → get_elem? xs i ≡ some a
      → get_elem? xs j ≡ some b
      → a.orig_row ≢ b.orig_row
  Distinct-get [] i j a b h lt e f = cc e
  Distinct-get (x ∷ xs) zero zero a b h lt e f = absurd (omega (arith, lt))
  Distinct-get (x ∷ xs) zero (suc j) a b h lt e f =
      subst (λ (y : Access). y.orig_row ≢ b.orig_row) (some_same e) (All-get _ xs j b f h.0)
  Distinct-get (x ∷ xs) (suc i) zero a b h lt e f = absurd (omega (arith, lt))
  Distinct-get (x ∷ xs) (suc i) (suc j) a b h lt e f =
      Distinct-get xs i j a b h.1 (omega (arith, lt)) e f

  -- The order looks at the row of an entry only.
  Le-row : (a b c : Access) → a.orig_row ≡ b.orig_row → Le db b c → Le db a c
  Le-row a b c same le p q r s e f = le p q r s (sym (found same) ∙ e) f
    where
      found : a.orig_row ≡ b.orig_row → orig db a ≡ orig db b
      found k = unfold orig in rw k refl

  -- The entries that the loop goes over.
  record Queue (v : Validator db) : Type 0 where
    live : All (Live db) (rows_of v)
    distinct : Distinct (rows_of v)
    keyed : Keyed db (rows_of v)
    ordered : Ordered db (rows_of v)

  queue : (v : Validator db) → Queue v
  queue v =
      let (entries, returns, perm, ordered) =
        sort-Ascends db v.txn.row_cnt v.used v.spare v.counted v.live in
      let sorted : entries ++ v.spare ≡ v.sorted =
        ok_same
          (sym returns ∙ (ap (λ as'. sort db (v.txn.row_cnt - 1) as') (sym v.split) ∙ v.sorts)) in
      let rows : entries ≡ rows_of v =
        sym (
          take-append_all v.txn.row_cnt entries v.spare
            (sym (length_perm v.used entries perm) ∙ v.counted))
        ∙ ap (take v.txn.row_cnt) sorted in
      record {
        live = subst (All (Live db)) rows (All-perm _ v.used entries perm v.live);
        distinct = subst Distinct rows (Distinct-perm v.used entries perm v.distinct);
        keyed = subst (Keyed db) rows (
            All-perm _ v.used entries perm
              (All-map (λ a h. All-perm _ v.used entries perm h) v.used v.keyed));
        ordered = subst (Ordered db) rows ordered;
      }

  held-wanted :
      (v : Validator db) (a b : Access) → Holds v b → Wants v a → Le db b a × (¬ Le db a b)
  held-wanted v a b (i, lt, at) wants =
      let k = queue v in
      let le = Ordered-get (rows_of v) i v.latched b a k.ordered lt at wants in
      (
        le,
        λ back. Distinct-get (rows_of v) i v.latched b a k.distinct lt at wants (
            All-get _ (rows_of v) v.latched a wants (All-get _ (rows_of v) i b at k.keyed) le back),
      )

  Chain-Wants : (w v : Validator db) → Chain w v → (a : Access) × Wants v a
  Chain-Wants w v (one (a, b, wants, holds, same)) = (a, wants)
  Chain-Wants w v (more (a, b, wants, holds, same) rest) = (a, wants)

  Chain-Le :
      (w v : Validator db) (a : Access)
      → Chain w v
      → Wants v a
      → (b : Access) × Holds w b × Le db a b
  Chain-Le w v a (one (a', b, wants', holds, same)) wants =
      let live = All-get _ (rows_of w) holds.0 b holds.2 (queue w).live in
      let first : a'.orig_row ≡ a.orig_row =
        ap (λ (x : Access). x.orig_row) (some_same (sym wants' ∙ wants)) in
      (b, holds, Le-row a b b (sym first ∙ same) (Le_self db b live))
  Chain-Le w v a (more {u = u} (a', b, wants', holds, same) rest) wants =
      let (c, next) = Chain-Wants w u rest in
      let (d, held, le) = Chain-Le w u c rest next in
      let first : a'.orig_row ≡ a.orig_row =
        ap (λ (x : Access). x.orig_row) (some_same (sym wants' ∙ wants)) in
      let live = All-get _ (rows_of u) u.latched c next (queue u).live in
      let step = Le-row a b c (sym first ∙ same) (held-wanted u c b holds next).0 in
      (d, held, Le_trans db a c d live step le)

-- Validations that overlap in time do not deadlock. However many transactions, whose entries name different live
-- rows and no two rows of one key, have sorted their access sets and latched some rows from the front: none of them
-- waits for itself through a chain of others, each of which wants a row that the next has latched.
pub sort-no_deadlock : (db : Database) (v : Validator db) → ¬ Chain v v
sort-no_deadlock db v cycle =
    let (a, wants) = Chain-Wants db v v cycle in
    let (b, holds, le) = Chain-Le db v v a cycle wants in (held-wanted db v a b holds wants).1 le
