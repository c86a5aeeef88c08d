-- ===== src/Alloc/Arenas.antt =====
-- What the arenas of Storage/System/mem_alloc.cpp hand out, and where a thread's arena is found.
use data_agent_demo.Prelude.{
  ℕ, zero, suc, ◌+◌, ◌*◌, ◌%◌, ◌<◌, ◌≤◌, ◌≡◌, ◌≢◌, ◌⊎◌, inl, inr, refl, sym, ap, subst, ◌∙◌, Bool,
  true, false, Option, none, some, List, [], ◌∷◌, ltb, leb, length, get_elem?, set, arith,
  length-set, get_elem?-set_self, get_elem?-set_ne, Bool-cases,
}
use native.Mathlib.Decide.{ℕ_discrete}
use data_agent_demo.Run.{
  ok, Fault, out_of_bounds, division_by_zero, check, or_fault, >>=-eq-ok, >>-eq-ok,
}
use data_agent_demo.Alloc.{
  Arena, header, rounded, block_sizes, alloc_block, free_block, size_from, get_size_id, probe,
  is_free, ends_at, MemAlloc, register_thread, get_arena_id,
}

-- A block that is freed is the next to be handed out, and the arena is then as before.
pub alloc_block-free_block :
    (fresh ptr : ℕ) (a : Arena) → header ≤ ptr → alloc_block fresh (free_block a ptr) ≡ (ptr, a)
unfolding alloc_block free_block
alloc_block-free_block fresh ptr a h = ap (λ p. (p, a)) (omega arith)

-- The block lies between `start`, with its header, and what the arena keeps for later, up to `stop`.
abbrev pub Carves : ℕ → ℕ → ℕ → ℕ → Arena → Type 0
Carves start stop size ptr a' =
    (ptr ≡ start + header) × (ptr + size ≤ a'.buffer) × (a'.buffer + a'.size_in_buffer ≡ stop)

-- With an empty free list, `alloc` cuts the block off the front of the buffer, or of a fresh one if the buffer is
-- too small, and the block does not reach into what is left.
pub alloc_block-Carves :
    (fresh : ℕ) (a : Arena)
    → a.head ≡ []
    → 0 < a.block_size
    → (Carves a.buffer
        (a.buffer + a.size_in_buffer)
        a.block_size
        (alloc_block fresh a).0
        (alloc_block fresh a).1)
      ⊎ (Carves fresh
          (fresh + a.block_size * 40960)
          a.block_size
          (alloc_block fresh a).0
          (alloc_block fresh a).1)
unfolding alloc_block
alloc_block-Carves fresh a h k = elim (Bool-cases (ltb a.size_in_buffer (rounded a.block_size))) [
  | inl small ↦ inr (rw (h, small) (refl, omega arith, omega arith))
  | inr large ↦
      let fits : rounded a.block_size ≤ a.size_in_buffer =
        within a.size_in_buffer (rounded a.block_size) large in
      inl (rw (h, large) (refl, omega arith, omega (arith, fits)))
]
  where
    within : (m n : ℕ) → ltb m n ≡ false → n ≤ m
    within m n e = ground arith

-- Class `i` is the first of the classes from number `j` on that holds `size` bytes.
abbrev pub FirstFit : ℕ → List ℕ → ℕ → Type 0
FirstFit size [] i = ⊥
FirstFit size (b ∷ bs) zero = size ≤ b
FirstFit size (b ∷ bs) (suc i) = (b < size) × FirstFit size bs i

-- `get_size_id` finds a class for every size of at most 1024 bytes, the smallest that holds it.
pub get_size_id-FirstFit :
    (size : ℕ) → size ≤ 1024 → (i : ℕ) × (get_size_id size ≡ ok i) × FirstFit size block_sizes i
unfolding get_size_id size_from
get_size_id-FirstFit size h = elim (Bool-cases (leb size 32)) [
  | inl a ↦ (0, ground arith, ground arith)
  | inr a ↦ elim (Bool-cases (leb size 64)) [
    | inl b ↦ (1, ground arith, (ground arith, ground arith))
    | inr b ↦ elim (Bool-cases (leb size 256)) [
      | inl c ↦ (2, ground arith, (ground arith, (ground arith, ground arith)))
      | inr c ↦ (3, ground arith, (ground arith, (ground arith, (ground arith, h))))
    ]
  ]
]

-- No entry is the thread's.
abbrev pub Unregistered : ℕ → List (ℕ × ℕ) → Type 0
Unregistered pid [] = Unit {0}
Unregistered pid (e ∷ es) = (e.0 ≢ pid) × Unregistered pid es

or_fault-eq-ok {ℓ} :
    {A : Type ℓ} (o : Option A) (why : Fault) {a : A} → or_fault o why ≡ ok a → o ≡ some a
or_fault-eq-ok none why e = cc
or_fault-eq-ok (some b) why e = cc

get_elem?-lt :
    (table : List (ℕ × ℕ)) (i : ℕ) (e : ℕ × ℕ) → get_elem? table i ≡ some e → i < length table
get_elem?-lt [] i e h = cc
get_elem?-lt (x ∷ xs) zero e h = omega arith
get_elem?-lt (x ∷ xs) (suc i) e h = omega (arith, get_elem?-lt xs i e h)

other_thread :
    (pid : ℕ) (table : List (ℕ × ℕ)) (i : ℕ) (e : ℕ × ℕ)
    → Unregistered pid table
    → get_elem? table i ≡ some e
    → e.0 ≢ pid
other_thread pid [] i e un h = cc
other_thread pid (x ∷ xs) zero e un h = ground (arith, un.0)
other_thread pid (x ∷ xs) (suc i) e un h = other_thread pid xs i e un.1 h

-- The probe for a free entry ends at one.
probe-is_free :
    (k s j : ℕ) (table : List (ℕ × ℕ))
    → probe is_free table k s ≡ ok j
    → (e : ℕ × ℕ) × (get_elem? table j ≡ some e) × (e.0 ≡ 0)
unfolding probe
probe-is_free zero s j table h = cc
probe-is_free (suc k) s j table h =
    let (e, f, g) = >>=-eq-ok (or_fault (get_elem? table s) out_of_bounds) _ h in
    elim (Bool-cases (is_free e.0)) [
      | inl stop ↦
          let here : s ≡ j = ground arith in
          (
            e,
            ap (get_elem? table) (sym here) ∙ or_fault-eq-ok (get_elem? table s) out_of_bounds f,
            ground arith,
          )
      | inr more ↦ probe-is_free k ((s + 1) % length table) j table (rw more at g)
    ]

-- Once a thread has taken that entry, the probe for the thread ends there too.
module _ (pid thd j : ℕ) (table : List (ℕ × ℕ)) (un : Unregistered pid table)
    (there : j < length table) where
  probe-set :
      (k s : ℕ)
      → probe is_free table k s ≡ ok j
      → probe (ends_at pid) (set table j (pid, thd)) k s ≡ ok j
  unfolding probe
  probe-set zero s h = cc
  probe-set (suc k) s h =
      let (e, f, g) = >>=-eq-ok (or_fault (get_elem? table s) out_of_bounds) _ h in
      let at_s : get_elem? table s ≡ some e = or_fault-eq-ok (get_elem? table s) out_of_bounds f in
      elim (ℕ_discrete s j) [
        | yes here ↦
            rw
              (ap (get_elem? (set table j (pid, thd))) here
                ∙ get_elem?-set_self table j (pid, thd) there)
              (ground arith)
        | no away ↦ elim (Bool-cases (is_free e.0)) [
          | inl stop ↦ absurd (away (ground arith))
          | inr more ↦
              rw
                (
                  get_elem?-set_ne table (pid, thd) (λ i. away (sym i)) ∙ at_s,
                  passes e (other_thread pid table s e un at_s) more,
                  length-set table j (pid, thd),
                )
                (probe-set k ((s + 1) % length table) (rw more at g))
        ]
      ]
    where
      passes : (e : ℕ × ℕ) → e.0 ≢ pid → is_free e.0 ≡ false → ends_at pid e.0 ≡ false
      passes e ne f = ground arith

-- A thread that registers finds its arena again: `get_arena_id` returns the number that it gave, if it had not
-- registered before and its registration found an entry.
pub get_arena_id-register_thread :
    (no_free : Bool) (m m' : MemAlloc) (pid thd_id : ℕ)
    → Unregistered pid m.pid_arena
    → register_thread true no_free m pid thd_id ≡ ok m'
    → get_arena_id true no_free m' pid ≡ ok thd_id
unfolding register_thread get_arena_id
get_arena_id-register_thread no_free m m' pid thd_id un h =
    let g = >>-eq-ok (check (ltb 0 (length m.pid_arena)) division_by_zero) _ h in
    let (j, k, l) =
      >>=-eq-ok (probe is_free m.pid_arena (length m.pid_arena) (pid % length m.pid_arena)) _ g in
    let (e, at_j, free) =
      probe-is_free (length m.pid_arena) (pid % length m.pid_arena) j m.pid_arena k in
    let there : j < length m.pid_arena = get_elem?-lt m.pid_arena j e at_j in
    let m'-eq : record m { pid_arena = set m.pid_arena j (pid, thd_id) } ≡ m' = cc l in
    subst (λ after. get_arena_id true no_free after pid ≡ ok thd_id) m'-eq
      (rw
        (
          length-set m.pid_arena j (pid, thd_id),
          some_entry there,
          probe-set pid thd_id j m.pid_arena un there (length m.pid_arena)
              (pid % length m.pid_arena) k,
          get_elem?-set_self m.pid_arena j (pid, thd_id) there,
        )
        refl)
  where
    some_entry : {j : ℕ} → j < length m.pid_arena → ltb 0 (length m.pid_arena) ≡ true
    some_entry lt = ground arith
