-- ===== src/Tests/Queues.antt =====
-- Lists of the entries 5, 6 and 7, in a memory where all pointers are NULL at first.
use data_agent_demo.Prelude.{ℕ, ◌≡◌, ◌≢◌, refl, some, none, List, [], ◌∷◌}
use data_agent_demo.Run.{ok, ◌>>=◌}
use data_agent_demo.Helper.Links.{
  Memory, put, Ends, stack_push, stack_pop, list_put_tail, list_insert_before, list_remove,
  list_remove_ht,
}
use data_agent_demo.Helper.Queue.{IsQueue, GetsHead, list-IsQueue}
use data_agent_demo.Txn.Accesses.{All}

abbrev nulls : Memory
nulls i = record { next = none; prev = none }

abbrev only_five : Ends
only_five = record { lhead = some 5; ltail = some 5 }

five-IsQueue : IsQueue nulls only_five (5 ∷ [])
five-IsQueue = record { head = refl; tail = refl; linked = (refl, refl, tt); distinct = (tt, tt) }

list-IsQueue_example :
    ((e : ℕ)
      → All (λ y. e ≢ y) (5 ∷ [])
      → IsQueue
          (list_put_tail nulls only_five e).0
          (list_put_tail nulls only_five e).1
          (5 ∷ e ∷ []))
    × ((x : ℕ) (ys : List ℕ) → 5 ∷ [] ≡ x ∷ ys → GetsHead nulls only_five x ys)
list-IsQueue_example = list-IsQueue nulls only_five (5 ∷ []) five-IsQueue

abbrev five_seven : Memory
five_seven = (list_put_tail nulls only_five 7).0

-- An entry put before 7 stands between 5 and 7, and goes out again.
between :
    (list_insert_before five_seven 7 6 6 ≡ record { next = some 7; prev = some 5 })
    × (list_remove (list_insert_before five_seven 7 6) 6 5 ≡ record { next = some 7; prev = none })
unfolding list_put_tail list_insert_before list_remove put
between = (refl, refl)

-- With the ends of the list the last entry goes out.
last_out :
    (list_remove_ht five_seven 7 (record { lhead = some 5; ltail = some 7 })
      >>= (λ (_, ends). ok ends.ltail))
    ≡ ok (some 5)
unfolding list_put_tail list_remove_ht put
last_out = refl

-- The top of a stack is what was pushed last.
pushed :
    stack_pop (stack_push nulls (some 5) 7).0 (stack_push nulls (some 5) 7).1 ≡ (some 5, some 7)
unfolding stack_push stack_pop put
pushed = refl
