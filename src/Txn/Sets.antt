-- ===== src/Txn/Sets.antt =====
-- OptCC::get_rw_set and OptCC::test_valid of Storage/concurrency_control/occ.cpp: read and write sets of a
-- transaction, and whether two sets meet.
use data_agent_demo.Prelude.{
  ℕ, ◌+◌, ◌-◌, ◌%◌, ◌≡◌, ◌↔◌, ◌⊎◌, inl, inr, refl, Bool, true, false, not, ◌&&◌, Option, none, List,
  [], ◌∷◌, arith, ◌==◌, if◌then◌else◌, take, Bool-cases,
}
use data_agent_demo.Run.{
  Run, ok, assertion, out_of_bounds, null_pointer, check, or_fault, ◌>>=◌, ◌>>◌,
}
use data_agent_demo.System.{word32}
use data_agent_demo.Txn.{Access, Txn, wr?}

-- `set_ent`: the addresses of its rows, `set_size` in number.
pub record SetEnt : Type 0 where
  pub set_size : ℕ
  pub rows : List ℕ

-- `set_ent::set_ent`
abbrev empty_set : SetEnt
empty_set = record { set_size = 0; rows = [] }

-- The fields of `OptCC`, which only `init` touches, but for its latch.
record OptCc : Type 0 where
  tnc : ℕ
  his_len : ℕ
  active_len : ℕ
  active : Option SetEnt
  history : Option SetEnt
  lock_all : Bool
  lock_txn_id : ℕ

-- `OptCC::init`
abbrev init_occ : OptCc
init_occ = record {
  tnc = 0;
  his_len = 0;
  active_len = 0;
  active = none;
  history = none;
  lock_all = false;
  lock_txn_id = 0;
}

-- The loop, with the room that is left in the two arrays; the results are the rows read and the rows written.
split_rows : List Access → ℕ → ℕ → Run (List ℕ × List ℕ)
split_rows [] reads writes = do
  check (writes == 0) assertion
  check (reads == 0) assertion
  ok ([], [])
split_rows (a ∷ rest) reads writes = do
  p ← or_fault a.orig_row null_pointer
  let as_write = split_rows rest reads (writes - 1)
  let as_read = split_rows rest (reads - 1) writes
  if wr? a.type
      then (do
        check (not (writes == 0)) out_of_bounds
        (rset, wset) ← as_write
        ok (rset, p ∷ wset))
      else (do check (not (reads == 0)) out_of_bounds; (rset, wset) ← as_read; ok (p ∷ rset, wset))

-- `get_rw_set`: the read set and the write set.
unfoldable pub get_rw_set : Txn → Run (SetEnt × SetEnt)
unfolding split_rows
get_rw_set t = do
  let reads = (t.row_cnt + (word32 - t.wr_cnt)) % word32
  (rset, wset) ← split_rows (take t.row_cnt t.accesses) reads t.wr_cnt
  ok (record { set_size = reads; rows = rset }, record { set_size = t.wr_cnt; rows = wset })

-- the inner loop of `test_valid`
absent : ℕ → List ℕ → Bool
absent p [] = true
absent p (q ∷ qs) = let rest = absent p qs in if p == q then false else rest

apart_rows : List ℕ → List ℕ → Bool
unfolding absent
apart_rows [] qs = true
apart_rows (p ∷ ps) qs = absent p qs && apart_rows ps qs

unfoldable pub test_valid : SetEnt → SetEnt → Bool
unfolding apart_rows
test_valid set1 set2 = apart_rows set1.rows set2.rows

-- The row is one of the rows.
abbrev pub Has : ℕ → List ℕ → Type 0
Has p [] = ⊥
Has p (q ∷ qs) = (p ≡ q) ⊎ Has p qs

-- No row is in both.
abbrev pub Disjoint : List ℕ → List ℕ → Type 0
Disjoint [] qs = Unit {0}
Disjoint (p ∷ ps) qs = (¬ Has p qs) × Disjoint ps qs

absent_iff : (p : ℕ) (qs : List ℕ) → (absent p qs ≡ true) ↔ (¬ Has p qs)
unfolding absent
absent_iff p [] = ((λ e h. h), λ h. refl)
absent_iff p (q ∷ qs) =
    let (there, back) = absent_iff p qs in
    elim (Bool-cases (p == q)) [
      | inl e ↦ ((λ f. ground arith), λ h. absurd (h (inl (ground arith))))
      | inr e ↦ ((λ f. not_here p q e (there (rw e at f))), λ h. rw e (back (λ k. h (inr k))))
    ]
  where
    not_here : (p q : ℕ) → (p == q) ≡ false → ¬ Has p qs → ¬ ((p ≡ q) ⊎ Has p qs)
    not_here p q e h (inl f) = ground arith
    not_here p q e h (inr k) = h k

apart_rows_iff : (ps qs : List ℕ) → (apart_rows ps qs ≡ true) ↔ Disjoint ps qs
unfolding apart_rows
apart_rows_iff [] qs = ((λ e. tt), λ h. refl)
apart_rows_iff (p ∷ ps) qs =
    let (a, b) = absent_iff p qs in
    let (c, d) = apart_rows_iff ps qs in
    ((λ e. (a (ground arith), c (ground arith))), λ h. ground (arith, b h.0, d h.1))

-- `test_valid` returns true exactly when no row is in both sets.
pub test_valid_iff :
    (set1 set2 : SetEnt) → (test_valid set1 set2 ≡ true) ↔ Disjoint set1.rows set2.rows
unfolding test_valid
test_valid_iff set1 set2 = apart_rows_iff set1.rows set2.rows
