-- ===== src/Helper/Queue.antt =====
-- The doubly linked list of Storage/System/helper.h as a queue: LIST_PUT_TAIL and LIST_GET_HEAD.
use data_agent_demo.Prelude.{
  ℕ, ◌≡◌, ◌≢◌, refl, sym, ap, ◌∙◌, subst, ◌==◌, ==_iff, Bool-cases, inl, inr, Option, some, none,
  List, [], ◌∷◌, ◌++◌,
}
use data_agent_demo.Run.{ok}
use data_agent_demo.Helper.Links.{
  Links, Memory, put, put_next, put_prev, Ends, list_get_head, list_put_tail,
}
use data_agent_demo.Txn.Accesses.{All}
use data_agent_demo.World.Evolve.{some_same}

abbrev pub first_or : List ℕ → Option ℕ → Option ℕ
first_or [] after = after
first_or (x ∷ xs) after = some x

abbrev pub last_or : Option ℕ → List ℕ → Option ℕ
last_or before [] = before
last_or before (x ∷ xs) = last_or (some x) xs

-- The pointers of the entries lead from each to the next and to the one before.
abbrev pub Linked : Memory → Option ℕ → List ℕ → Type 0
Linked m before [] = Unit {0}
Linked m before (x ∷ xs) =
    ((m x).prev ≡ before) × ((m x).next ≡ first_or xs none) × Linked m (some x) xs

abbrev pub AllApart : List ℕ → Type 0
AllApart [] = Unit {0}
AllApart (x ∷ xs) = All (λ y. x ≢ y) xs × AllApart xs

-- The list in the memory has these entries, in this order.
pub record IsQueue (m : Memory) (ends : Ends) (xs : List ℕ) : Type 0 where
  pub head : ends.lhead ≡ first_or xs none
  pub tail : ends.ltail ≡ last_or none xs
  pub linked : Linked m none xs
  pub distinct : AllApart xs

pub put_self : (m : Memory) (i : ℕ) (l : Links) → put m i l i ≡ l
unfolding put
put_self m i l = rw ((==_iff i i).1 refl) refl

pub put_ne : (m : Memory) (i j : ℕ) (l : Links) → i ≢ j → put m i l j ≡ m j
unfolding put
put_ne m i j l ne = elim (Bool-cases (i == j)) [
  | inl same ↦ absurd (ne ((==_iff i j).0 same))
  | inr other ↦ rw other refl
]

Linked-same :
    (m m' : Memory) (before : Option ℕ) (xs : List ℕ)
    → All (λ x. m' x ≡ m x) xs
    → Linked m before xs
    → Linked m' before xs
Linked-same m m' before [] h k = tt
Linked-same m m' before (x ∷ xs) h k = (
  ap (λ (l : Links). l.prev) h.0 ∙ k.0,
  ap (λ (l : Links). l.next) h.0 ∙ k.1,
  Linked-same m m' (some x) xs h.1 k.2,
)

-- An entry behind the last one, which is `l`.
module _ (m m' : Memory) (e l : ℕ) (others : (y : ℕ) → e ≢ y → l ≢ y → m' y ≡ m y)
    (last_prev : (m' l).prev ≡ (m l).prev) (last_next : (m' l).next ≡ some e)
    (new_prev : (m' e).prev ≡ some l) (new_next : (m' e).next ≡ none) where
  Linked-snoc :
      (before : Option ℕ) (x : ℕ) (xs : List ℕ)
      → last_or (some x) xs ≡ some l
      → AllApart (x ∷ xs)
      → All (λ y. e ≢ y) (x ∷ xs)
      → Linked m before (x ∷ xs)
      → Linked m' before (x ∷ xs ++ e ∷ [])
  Linked-snoc before x [] ends d fresh k =
      let same : l ≡ x = sym (some_same ends) in
      (
        subst (λ y. (m' y).prev ≡ before) same (last_prev ∙ (ap (λ y. (m y).prev) same ∙ k.0)),
        subst (λ y. (m' y).next ≡ some e) same last_next,
        (new_prev ∙ ap some same, new_next, tt),
      )
  Linked-snoc before x (y ∷ ys) ends d fresh k =
      let kept : m' x ≡ m x =
        others x fresh.0
          (λ same. not_last y ys ends (subst (λ z. All (λ u. z ≢ u) (y ∷ ys)) (sym same) d.0)) in
      (
        ap (λ (q : Links). q.prev) kept ∙ k.0,
        ap (λ (q : Links). q.next) kept ∙ k.1,
        Linked-snoc (some x) y ys ends d.1 fresh.1 k.2,
      )
    where
      not_last : (z : ℕ) (zs : List ℕ) → last_or (some z) zs ≡ some l → ¬ All (λ u. l ≢ u) (z ∷ zs)
      not_last z [] end h = h.0 (sym (some_same end))
      not_last z (u ∷ us) end h = not_last u us end h.1

last-snoc : (before : Option ℕ) (xs : List ℕ) (e : ℕ) → last_or before (xs ++ e ∷ []) ≡ some e
last-snoc before [] e = refl
last-snoc before (x ∷ xs) e = last-snoc (some x) xs e

AllApart-snoc : (xs : List ℕ) (e : ℕ) → AllApart xs → All (λ y. e ≢ y) xs → AllApart (xs ++ e ∷ [])
AllApart-snoc [] e d fresh = (tt, tt)
AllApart-snoc (x ∷ xs) e d fresh = (away xs d.0, AllApart-snoc xs e d.1 fresh.1)
  where
    away : (ys : List ℕ) → All (λ y. x ≢ y) ys → All (λ y. x ≢ y) (ys ++ e ∷ [])
    away [] h = ((λ same. fresh.0 (sym same)), tt)
    away (y ∷ ys) h = (h.0, away ys h.1)

last_some : (x : ℕ) (xs : List ℕ) → (l : ℕ) × (last_or (some x) xs ≡ some l)
last_some x [] = (x, refl)
last_some x (y ∷ ys) = last_some y ys

not_last :
    (e x l : ℕ) (xs : List ℕ) → last_or (some x) xs ≡ some l → All (λ y. e ≢ y) (x ∷ xs) → e ≢ l
not_last e x l [] ends fresh = λ same. fresh.0 (same ∙ sym (some_same ends))
not_last e x l (y ∷ ys) ends fresh = not_last e y l ys ends fresh.1

-- LIST_PUT_TAIL on a list that is not empty
module _ (m : Memory) (e l : ℕ) (ne : e ≢ l) where
  abbrev put_m : Memory
  put_m = put_next (put_prev (put m e (record { next = none; prev = none })) e (some l)) l (some e)

  put_m-others : (y : ℕ) → e ≢ y → l ≢ y → put_m y ≡ m y
  put_m-others y ne' ne'' = put_ne _ l y _ ne'' ∙ (put_ne _ e y _ ne' ∙ put_ne m e y _ ne')

  put_m-last : put_m l ≡ record (m l) { next = some e }
  put_m-last =
      put_self _ l _
      ∙ ap (λ (q : Links). record q { next = some e }) (put_ne _ e l _ ne ∙ put_ne m e l _ ne)

  put_m-new : put_m e ≡ record { next = none; prev = some l }
  put_m-new =
      put_ne _ l e _ (λ same. ne (sym same))
      ∙ (put_self _ e _ ∙ ap (λ (q : Links). record q { prev = some l }) (put_self m e _))

put_tail-IsQueue :
    (m : Memory) (ends : Ends) (xs : List ℕ) (e : ℕ)
    → IsQueue m ends xs
    → All (λ y. e ≢ y) xs
    → IsQueue (list_put_tail m ends e).0 (list_put_tail m ends e).1 (xs ++ e ∷ [])
unfolding list_put_tail
put_tail-IsQueue m ends [] e q fresh =
    subst
      (λ (t : Option ℕ).
        IsQueue (list_put_tail m (record ends { ltail = t }) e).0
          (list_put_tail m (record ends { ltail = t }) e).1 (e ∷ []))
      (sym q.tail)
      (record {
        head = refl;
        tail = refl;
        linked = (
          ap (λ (l : Links). l.prev) (put_self m e _),
          ap (λ (l : Links). l.next) (put_self m e _),
          tt,
        );
        distinct = (tt, tt);
      })
put_tail-IsQueue m ends (x ∷ xs) e q fresh =
    let (l, last) = last_some x xs in
    let ne = not_last e x l xs last fresh in
    subst
      (λ (t : Option ℕ).
        IsQueue (list_put_tail m (record ends { ltail = t }) e).0
          (list_put_tail m (record ends { ltail = t }) e).1 (x ∷ xs ++ e ∷ []))
      (sym (q.tail ∙ last))
      (record {
        head = q.head;
        tail = sym (last-snoc (some x) xs e);
        linked =
            Linked-snoc m (put_m m e l ne) e l (put_m-others m e l ne)
              (ap (λ (k : Links). k.prev) (put_m-last m e l ne))
              (ap (λ (k : Links). k.next) (put_m-last m e l ne))
              (ap (λ (k : Links). k.prev) (put_m-new m e l ne))
              (ap (λ (k : Links). k.next) (put_m-new m e l ne)) none x xs last q.distinct fresh
              q.linked;
        distinct = AllApart-snoc (x ∷ xs) e q.distinct fresh;
      })

-- What LIST_GET_HEAD gives of a list with a first entry.
abbrev pub GetsHead : Memory → Ends → ℕ → List ℕ → Type 0
GetsHead m ends x xs =
    (m' : Memory) × (ends' : Ends) × (list_get_head m ends ≡ ok (x, m', ends'))
    × IsQueue m' ends' xs

get_head-IsQueue :
    (m : Memory) (ends : Ends) (x : ℕ) (xs : List ℕ)
    → IsQueue m ends (x ∷ xs)
    → GetsHead m ends x xs
unfolding list_get_head
get_head-IsQueue m ends x [] q = (
  put_next m x none,
  record { lhead = none; ltail = none },
  rw (q.head, q.linked.1) refl,
  record { head = refl; tail = refl; linked = tt; distinct = tt },
)
get_head-IsQueue m ends x (y ∷ ys) q =
    let m' = put_next (put_prev m y none) x none in
    let kept : All (λ z. y ≢ z) ys → All (λ z. x ≢ z) ys → All (λ z. m' z ≡ m z) ys = kept_all ys in
    let second : m' y ≡ record (m y) { prev = none } =
      put_ne _ x y _ q.distinct.0.0 ∙ put_self m y _ in
    (
      m',
      record { lhead = some y; ltail = ends.ltail },
      rw (q.head, q.linked.1) refl,
      record {
        head = refl;
        tail = q.tail;
        linked = (
          ap (λ (l : Links). l.prev) second,
          ap (λ (l : Links). l.next) second ∙ q.linked.2.1,
          Linked-same m m' (some y) ys (kept q.distinct.1.0 q.distinct.0.1) q.linked.2.2,
        );
        distinct = q.distinct.1;
      },
    )
  where
    kept_all :
        (zs : List ℕ)
        → All (λ z. y ≢ z) zs
        → All (λ z. x ≢ z) zs
        → All (λ z. put_next (put_prev m y none) x none z ≡ m z) zs
    kept_all [] h k = tt
    kept_all (z ∷ zs) h k = (
      put_ne (put_prev m y none) x z (record (put_prev m y none x) { next = none }) k.0
          ∙ put_ne m y z (record (m y) { prev = none }) h.0,
      kept_all zs h.1 k.1,
    )

-- LIST_PUT_TAIL and LIST_GET_HEAD make the linked list a queue: a new entry comes behind the others, and the entry
-- taken is the first, with the others left in their order.
pub list-IsQueue :
    (m : Memory) (ends : Ends) (xs : List ℕ)
    → IsQueue m ends xs
    → ((e : ℕ)
        → All (λ y. e ≢ y) xs
        → IsQueue (list_put_tail m ends e).0 (list_put_tail m ends e).1 (xs ++ e ∷ []))
      × ((x : ℕ) (ys : List ℕ) → xs ≡ x ∷ ys → GetsHead m ends x ys)
list-IsQueue m ends xs q = (
  λ e. put_tail-IsQueue m ends xs e q,
  λ x ys same. get_head-IsQueue m ends x ys (subst (IsQueue m ends) same q),
)
