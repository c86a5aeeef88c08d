-- ===== src/Txn/Ascends.antt =====
-- The sort of OptCC::validate, which is a bubble sort: the entries in use come out in order.
use mathlib.Core.List.{Permᴰ}
use mathlib.Core.List.{append_assoc}
use mathlib.Core.List.Permᴰ as PermD
use data_agent_demo.Prelude.{
  ℕ, zero, suc, ◌-◌, ◌≡◌, refl, ap, subst, Bool, true, false, List, [], ◌∷◌, ◌++◌, arith, length,
}
use data_agent_demo.Run.{Run, ok}
use data_agent_demo.Row.{Row}
use data_agent_demo.Database.{Database}
use data_agent_demo.Txn.{Access}
use data_agent_demo.Txn.Validate.{orig, row_greater, bubble, sort}
use data_agent_demo.Txn.Accesses.{All, All-perm}
use data_agent_demo.Txn.Ends.{All-append}
use data_agent_demo.Txn.Order.{RowLe, row_greater-RowLe, RowLe-trans}
use data_agent_demo.Txn.Sort.{Live, greater_lem}

perm_append {ℓ} : {A : Type ℓ} (xs ys zs : List A) → Permᴰ xs ys → Permᴰ (xs ++ zs) (ys ++ zs)
perm_append xs ys zs Permᴰ.nil = PermD.refl zs
perm_append (x ∷ xs) (y ∷ ys) zs (Permᴰ.cons e s) = Permᴰ.cons e (perm_append xs ys zs s)
perm_append xs ys zs (Permᴰ.swap e f) = Permᴰ.swap e f
perm_append xs ys zs (Permᴰ.trans {l₂ = us} s u) =
    Permᴰ.trans (perm_append xs us zs s) (perm_append us ys zs u)

-- The row of the first entry does not come behind that of the other.
abbrev pub Le : Database → Access → Access → Type 0
Le db a b = (p q : ℕ) (r s : Row) → orig db a ≡ ok (p, r) → orig db b ≡ ok (q, s) → RowLe r s

abbrev pub Ordered : Database → List Access → Type 0
Ordered db [] = Unit {0}
Ordered db (a ∷ rest) = All (Le db a) rest × Ordered db rest

module _ (db : Database) where
  row_of : (a : Access) (p : ℕ) (r : Row) (h : Live db a) → orig db a ≡ ok (p, r) → h.row ≡ r
  row_of a p r h e = cc (h.found, e)

  Le-rows : (a b : Access) (h : Live db a) (k : Live db b) → RowLe h.row k.row → Le db a b
  Le-rows a b h k le p q r s e f = cc (le, row_of a p r h e, row_of b q s k f)

  pub Le_trans : (a b c : Access) → Live db b → Le db a b → Le db b c → Le db a c
  Le_trans a b c h le le' p q r s e f =
      RowLe-trans r h.row s (le p h.addr r h.row e h.found) (le' h.addr q h.row s h.found f)

  pub Le_self : (a : Access) → Live db a → Le db a a
  Le_self a h = Le-rows a a h h (not_behind (row_greater h.row h.row) refl)
    where
      not_behind : (b : Bool) → row_greater h.row h.row ≡ b → row_greater h.row h.row ≡ false
      not_behind true e = row_greater-RowLe h.row h.row e
      not_behind false e = e

  -- What a run of the inner loop gives: the last of the entries that it compared, and the others in front of it.
  record Bubbles (pre rest : List Access) (count : ℕ) (run : Run (List Access)) : Type 0 where
    front : List Access
    last : Access
    returns : run ≡ ok (front ++ last ∷ rest)
    counted : length front ≡ count
    perm : Permᴰ pre (front ++ last ∷ [])
    above : All (λ a. Le db a last) pre

  module _ (rest : List Access) where
    bubble-Bubbles :
        (count : ℕ) (pre : List Access)
        → length pre ≡ suc count
        → All (Live db) pre
        → Bubbles pre rest count (bubble db count (pre ++ rest))
    unfolding bubble
    bubble-Bubbles count [] l live = absurd (omega (arith, l))
    bubble-Bubbles zero (a ∷ []) l live = record {
      front = [];
      last = a;
      returns = refl;
      counted = refl;
      perm = PermD.refl (a ∷ []);
      above = (Le_self a live.0, tt);
    }
    bubble-Bubbles zero (a ∷ b ∷ pre) l live = absurd (omega (arith, l))
    bubble-Bubbles (suc count) (a ∷ []) l live = absurd (omega (arith, l))
    bubble-Bubbles (suc count) (a ∷ b ∷ pre) l live =
        next (row_greater live.0.row live.1.0.row) refl
          (bubble-Bubbles count (a ∷ pre) (omega (arith, l)) (live.0, live.1.1))
          (bubble-Bubbles count (b ∷ pre) (omega (arith, l)) live.1)
      where
        next :
            (swap : Bool)
            → row_greater live.0.row live.1.0.row ≡ swap
            → Bubbles (a ∷ pre) rest count (bubble db count (a ∷ pre ++ rest))
            → Bubbles (b ∷ pre) rest count (bubble db count (b ∷ pre ++ rest))
            → Bubbles (a ∷ b ∷ pre) rest (suc count) (bubble db (suc count) (a ∷ b ∷ pre ++ rest))
        next true e r s = record {
          front = b ∷ r.front;
          last = r.last;
          returns = rw (greater_lem db a b live.0 live.1.0, e, r.returns) refl;
          counted = ap suc r.counted;
          perm = Permᴰ.trans (Permᴰ.swap refl refl) (Permᴰ.cons refl r.perm);
          above = (
            r.above.0,
            (
              Le_trans b a r.last live.0
                  (Le-rows b a live.1.0 live.0 (row_greater-RowLe live.0.row live.1.0.row e))
                  r.above.0,
              r.above.1,
            ),
          );
        }
        next false e r s = record {
          front = a ∷ s.front;
          last = s.last;
          returns = rw (greater_lem db a b live.0 live.1.0, e, s.returns) refl;
          counted = ap suc s.counted;
          perm = Permᴰ.cons refl s.perm;
          above = (Le_trans a b s.last live.1.0 (Le-rows a b live.0 live.1.0 e) s.above.0, s.above);
        }

  -- A run of the outer loop on `pre`, in front of entries that are in order and behind all of `pre`.
  record Sorts (pre suf rest : List Access) (run : Run (List Access)) : Type 0 where
    entries : List Access
    returns : run ≡ ok (entries ++ rest)
    perm : Permᴰ (pre ++ suf) entries
    ordered : Ordered db entries

  sort-Sorts :
      (i : ℕ) (pre suf rest : List Access)
      → length pre ≡ suc i
      → All (Live db) pre
      → Ordered db suf
      → All (λ a. All (Le db a) suf) pre
      → Sorts pre suf rest (sort db i (pre ++ (suf ++ rest)))
  unfolding sort
  sort-Sorts i [] suf rest l live ordered below = absurd (omega (arith, l))
  sort-Sorts zero (a ∷ []) suf rest l live ordered below = record {
    entries = a ∷ suf;
    returns = refl;
    perm = PermD.refl (a ∷ suf);
    ordered = (below.0, ordered);
  }
  sort-Sorts zero (a ∷ b ∷ pre) suf rest l live ordered below = absurd (omega (arith, l))
  sort-Sorts (suc i) (a ∷ pre) suf rest l live ordered below =
      let r = bubble-Bubbles (suf ++ rest) (suc i) (a ∷ pre) l live in
      let (live_front, _) =
        All-append (Live db) r.front (r.last ∷ []) (All-perm _ (a ∷ pre) _ r.perm live) in
      let (below_front, below_last) =
        All-append (λ x. All (Le db x) suf) r.front (r.last ∷ [])
          (All-perm _ (a ∷ pre) _ r.perm below) in
      let (above, _) =
        All-append (λ x. Le db x r.last) r.front (r.last ∷ [])
          (All-perm _ (a ∷ pre) _ r.perm r.above) in
      let s =
        sort-Sorts i r.front (r.last ∷ suf) rest r.counted live_front (below_last.0, ordered)
          (both r.last suf r.front above below_front) in
      record {
        entries = s.entries;
        returns = rw r.returns s.returns;
        perm =
            Permᴰ.trans
              (subst (Permᴰ (a ∷ pre ++ suf)) (append_assoc r.front (r.last ∷ []) suf)
                (perm_append (a ∷ pre) (r.front ++ r.last ∷ []) suf r.perm))
              s.perm;
        ordered = s.ordered;
      }
    where
      both :
          (m : Access) (suf xs : List Access)
          → All (λ x. Le db x m) xs
          → All (λ x. All (Le db x) suf) xs
          → All (λ x. All (Le db x) (m ∷ suf)) xs
      both m suf [] h k = tt
      both m suf (x ∷ xs) h k = ((h.0, k.0), both m suf xs h.1 k.1)

-- The sorted entries: the same ones, in order, in front of those not in use.
abbrev pub Ascends : Database → ℕ → List Access → List Access → Type 0
Ascends db row_cnt used spare =
    (entries : List Access) × (sort db (row_cnt - 1) (used ++ spare) ≡ ok (entries ++ spare))
    × Permᴰ used entries
    × Ordered db entries

-- The sort of `validate`, on an access set whose entries in use name live rows, returns. It only changes the order
-- of those entries, and puts them in the order of their rows by the name of the table and then by the primary key.
pub sort-Ascends :
    (db : Database) (row_cnt : ℕ) (used spare : List Access)
    → length used ≡ row_cnt
    → All (Live db) used
    → Ascends db row_cnt used spare
sort-Ascends db row_cnt [] spare l live =
    ([], (unfold sort in ap (λ (i : ℕ). sort db i spare) none_left), Permᴰ.nil, tt)
  where
    none_left : row_cnt - 1 ≡ 0
    none_left = omega (arith, l)
sort-Ascends db row_cnt (a ∷ used) spare l live =
    let s =
      sort-Sorts db (row_cnt - 1) (a ∷ used) [] spare (omega (arith, l)) live tt
        (empty (a ∷ used)) in
    (
      s.entries,
      s.returns,
      subst (λ as'. Permᴰ as' s.entries) (append-nil (a ∷ used)) s.perm,
      s.ordered,
    )
  where
    empty : (xs : List Access) → All (λ x. All (Le db x) []) xs
    empty [] = tt
    empty (x ∷ xs) = (tt, empty xs)

    append-nil : (xs : List Access) → xs ++ [] ≡ xs
    append-nil [] = refl
    append-nil (x ∷ xs) = ap (◌∷◌ x) (append-nil xs)
