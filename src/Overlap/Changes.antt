-- ===== src/Overlap/Changes.antt =====
-- Changes of a thread's access set, as turns of the thread: a write to a copy, and the sort of OptCC::validate.
use mathlib.Core.List.{Permᴰ, append-nil}
use data_agent_demo.Prelude.{
  ℕ, ◌-◌, ◌<◌, ◌≡◌, inl, inr, refl, sym, ap, ◌∙◌, subst, some, List, [], length, get_elem?, set,
}
use data_agent_demo.Run.{ok}
use data_agent_demo.System.{rd, wr}
use data_agent_demo.Row.{Row, Table, get_tuple_size}
use data_agent_demo.Database.{Database}
use data_agent_demo.Txn.{Access}
use data_agent_demo.Txn.Validate.{sort}
use data_agent_demo.Txn.Accesses.{All, All-perm, Distinct-perm}
use data_agent_demo.Txn.Sort.{Live}
use data_agent_demo.Txn.Ascends.{Ordered, sort-Ascends}
use data_agent_demo.World.{Seen}
use data_agent_demo.World.Alls.{All-get}
use data_agent_demo.World.Evolve.{ok_same, some_same}
use data_agent_demo.Overlap.{running, latching, Worker, Holds}
use data_agent_demo.Overlap.Store.{Names}
use data_agent_demo.Overlap.Own.{Own}
use data_agent_demo.Overlap.Rounds.{orig-Names}
use data_agent_demo.Overlap.Turn.{Turn, AllFit}
use data_agent_demo.Overlap.Steps.{running-Turn, latching-Turn}
use data_agent_demo.Overlap.Entries.{
  get-set_cases, All-of, AreDistinct-Distinct, Distinct-AreDistinct,
}

-- A write to the copy of an entry.
module _ (db : Database) (w : Worker) (fits : AllFit db) (o : Own db w) (k : ℕ) (a : Access)
    (l l' : Row) (at : get_elem? w.entries k ≡ some a) (copied : a.local ≡ some l)
    (table : l'.table ≡ l.table) (size : length l'.data_bytes ≡ length l.data_bytes)
    (idle : (p : ℕ) → ¬ Holds w p) where
  abbrev edited : Access
  edited = record a { type = wr; local = some l' }

  abbrev with_edit : List Access
  with_edit = set w.entries k edited

  -- every entry names the row that it named
  named_before :
      (j : ℕ) (b : Access)
      → get_elem? with_edit j ≡ some b
      → (c : Access) × (get_elem? w.entries j ≡ some c) × (c.orig_row ≡ b.orig_row)
  named_before j b e = elim (get-set_cases w.entries k a edited j b at e) [
    | inl (here, new) ↦ (a, ap (get_elem? w.entries) here ∙ at, ap (λ (x : Access). x.orig_row) new)
    | inr (other, old) ↦ (b, old, refl)
  ]

  edited-Names : Names db edited
  edited-Names =
      let h = o.names k a at in
      let copy : h.copy ≡ l = some_same (sym h.copied ∙ copied) in
      let tuple : get_tuple_size l' ≡ get_tuple_size h.copy =
        ap (λ (t : Table). t.schema.tuple_size) (table ∙ ap (λ (x : Row). x.table) (sym copy)) in
      record {
        addr = h.addr;
        row = h.row;
        copy = l';
        at = h.at;
        there = h.there;
        copied = refl;
        copy_sized =
            size ∙ (ap (λ (x : Row). length x.data_bytes) (sym copy) ∙ (h.copy_sized ∙ sym tuple));
        row_sized = h.row_sized ∙ sym tuple;
      }

  edited-Seen : Seen w.start_ts db edited
  edited-Seen p r c m orig there managed copy reads current = absurd (not_read reads)
    where
      not_read : ¬ (wr ≡ rd)
      not_read e = cc e

  pub edits-Turn : Turn db w db (record w { entries = with_edit; phase = running })
  edits-Turn =
      running-Turn db w fits o with_edit
        (λ j b e. elim (get-set_cases w.entries k a edited j b at e) [
          | inl (here, new) ↦ subst (Names db) new edited-Names
          | inr (other, old) ↦ o.names j b old
        ])
        (λ i j b c e f same.
          let (b', b_at, b_row) = named_before i b e in
          let (c', c_at, c_row) = named_before j c f in
          o.distinct i j b' c' b_at c_at (b_row ∙ (same ∙ sym c_row)))
        (λ j b e. elim (get-set_cases w.entries k a edited j b at e) [
          | inl (here, new) ↦ subst (Seen w.start_ts db) new edited-Seen
          | inr (other, old) ↦ o.seen j b old
        ])
        idle
        (λ v own before end_ts rid i j p b c e lt c_at c_row b_at b_row.
          let (b', b_at', b_row') = named_before j b b_at in
          before end_ts rid i j p b' c e lt c_at c_row b_at' (b_row' ∙ b_row))

-- The start of `validate`, which sorts the access set.
module _ (db : Database) (w : Worker) (fits : AllFit db) (o : Own db w) where
  All-Live : All (Live db) w.entries
  All-Live = All-of (Live db) w.entries (λ k a at.
      let h = o.names k a at in record { addr = h.addr; row = h.row; found = orig-Names db a h })

  pub sorted_lem :
      (entries : List Access) × (sort db (length w.entries - 1) w.entries ≡ ok entries)
      × Permᴰ w.entries entries
      × Ordered db entries
  sorted_lem =
      let (entries, returns, perm, ordered) =
        sort-Ascends db (length w.entries) w.entries [] refl All-Live in
      (
        entries,
        subst (λ xs. sort db (length w.entries - 1) xs ≡ ok entries) (append-nil w.entries)
            (returns ∙ ap ok (append-nil entries)),
        perm,
        ordered,
      )

  -- what holds of all entries holds of all sorted ones
  kept_sorted {κ} :
      (P : Access → Type κ) (entries : List Access)
      → Permᴰ w.entries entries
      → ((k : ℕ) (a : Access) → get_elem? w.entries k ≡ some a → P a)
      → (k : ℕ) (a : Access) → get_elem? entries k ≡ some a
      → P a
  kept_sorted P entries perm h k a at =
      All-get P entries k a at (All-perm P w.entries entries perm (All-of P w.entries h))

  permuted-Turn :
      ((p : ℕ) → ¬ Holds w p)
      → (entries : List Access) → Permᴰ w.entries entries
      → Turn db w db (record w { entries = entries; phase = latching 0 })
  permuted-Turn idle entries perm =
      latching-Turn db w fits o entries (kept_sorted (Names db) entries perm o.names)
        (Distinct-AreDistinct db entries
          (Distinct-perm w.entries entries perm (AreDistinct-Distinct w.entries o.distinct)))
        (kept_sorted (Seen w.start_ts db) entries perm o.seen) idle
        (λ v own before end_ts rid k l p a b e lt b_at b_row a_at.
          kept_sorted (λ x. x.orig_row ≡ some p → w.start_ts < end_ts) entries perm
            (λ j x x_at x_row. before end_ts rid k j p x b e lt b_at b_row x_at x_row) l a a_at)

  pub validates-Turn :
      ((p : ℕ) → ¬ Holds w p)
      → (sorted : List Access) → sort db (length w.entries - 1) w.entries ≡ ok sorted
      → Turn db w db (record w { entries = sorted; phase = latching 0 })
  validates-Turn idle sorted run =
      let (entries, returns, perm, _) = sorted_lem in
      subst (λ xs. Turn db w db (record w { entries = xs; phase = latching 0 }))
        (ok_same (sym returns ∙ run)) (permuted-Turn idle entries perm)
