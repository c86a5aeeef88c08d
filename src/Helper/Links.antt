-- ===== src/Helper/Links.antt =====
-- The macros of Storage/System/helper.h for stacks and for doubly linked lists. An entry is an address, and the memory
-- gives the two pointers of each.
use data_agent_demo.Prelude.{ℕ, ◌==◌, Bool, false, Option, some, none, if◌then◌else◌}
use data_agent_demo.Run.{Run, ok, null_pointer, assertion, check, or_fault, ◌>>=◌, ◌>>◌}

pub record Links : Type 0 where
  pub next : Option ℕ
  pub prev : Option ℕ

abbrev pub Memory : Type 0
Memory = ℕ → Links

unfoldable pub put : Memory → ℕ → Links → Memory
put m i links j = if i == j then links else m j

abbrev pub put_next : Memory → ℕ → Option ℕ → Memory
put_next m i next = put m i (record (m i) { next = next })

abbrev pub put_prev : Memory → ℕ → Option ℕ → Memory
put_prev m i prev = put m i (record (m i) { prev = prev })

-- `if (p) p->next = q`
abbrev pub put_next_of : Memory → Option ℕ → Option ℕ → Memory
put_next_of m none next = m
put_next_of m (some i) next = put_next m i next

abbrev pub put_prev_of : Memory → Option ℕ → Option ℕ → Memory
put_prev_of m none prev = m
put_prev_of m (some i) prev = put_prev m i prev

-- `STACK_POP`: the new stack, and the top
unfoldable pub stack_pop : Memory → Option ℕ → Option ℕ × Option ℕ
stack_pop m none = (none, none)
stack_pop m (some top) = ((m top).next, some top)

-- `STACK_PUSH`: the memory and the new stack
unfoldable pub stack_push : Memory → Option ℕ → ℕ → Memory × Option ℕ
stack_push m stack entry = (put_next m entry stack, some entry)

-- the two pointers to a list
pub record Ends : Type 0 where
  pub lhead : Option ℕ
  pub ltail : Option ℕ

-- `LIST_GET_HEAD`: the entry, the memory and the list's pointers. An empty list has no entry to look at.
unfoldable pub list_get_head : Memory → Ends → Run (ℕ × Memory × Ends)
list_get_head m ends = do
  en ← or_fault ends.lhead null_pointer
  let lhead = (m en).next
  let m₁ = put_prev_of m lhead none
  let ltail : Option ℕ = elim lhead [ none ↦ none | some head ↦ ends.ltail ]
  ok (en, put_next m₁ en none, record { lhead = lhead; ltail = ltail })

-- `LIST_PUT_TAIL`
unfoldable pub list_put_tail : Memory → Ends → ℕ → Memory × Ends
list_put_tail m ends en =
    let cleared = put m en (record { next = none; prev = none }) in
    elim ends.ltail [
      | none ↦ (cleared, record { lhead = some en; ltail = some en })
      | some tail ↦ (
        put_next (put_prev cleared en (some tail)) tail (some en),
        record { lhead = ends.lhead; ltail = some en },
      )
    ]

-- `LIST_INSERT_BEFORE`
unfoldable pub list_insert_before : Memory → ℕ → ℕ → Memory
list_insert_before m entry newentry =
    let before = (m entry).prev in
    let m₁ = put m newentry (record { next = some entry; prev = before }) in
    put_prev (put_next_of m₁ before (some newentry)) entry (some newentry)

-- `LIST_REMOVE`
unfoldable pub list_remove : Memory → ℕ → Memory
list_remove m entry =
    let m₁ = put_prev_of m (m entry).next (m entry).prev in
    put_next_of m₁ (m₁ entry).prev (m₁ entry).next

abbrev same? : Option ℕ → ℕ → Bool
same? none i = false
same? (some j) i = i == j

-- `LIST_REMOVE_HT`
unfoldable pub list_remove_ht : Memory → ℕ → Ends → Run (Memory × Ends)
list_remove_ht m entry ends = do
  (m₁, ltail) ← (elim (m entry).next [
    | some i ↦ ok (put_prev m i (m entry).prev, ends.ltail)
    | none ↦ (do check (same? ends.ltail entry) assertion; ok (m, (m entry).prev))
  ])
  (m₂, lhead) ← (elim (m₁ entry).prev [
    | some i ↦ ok (put_next m₁ i (m₁ entry).next, ends.lhead)
    | none ↦ (do check (same? ends.lhead entry) assertion; ok (m₁, (m₁ entry).next))
  ])
  ok (m₂, record { lhead = lhead; ltail = ltail })
