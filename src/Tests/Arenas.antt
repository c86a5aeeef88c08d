-- ===== src/Tests/Arenas.antt =====
-- Arenas of the allocator.
use data_agent_demo.Prelude.{◌≡◌, refl, true, false, [], ◌∷◌, arith}
use data_agent_demo.Run.{ok}
use data_agent_demo.Alloc.{MemAlloc, register_thread, get_arena_id, probe}
use data_agent_demo.Alloc.Arenas.{get_arena_id-register_thread}

-- Thread 7 has the entry that thread 10 would take, of three.
abbrev one_thread : MemAlloc
one_thread = record { arenas = []; pid_arena = (0, 0) ∷ (7, 1) ∷ (0, 0) ∷ [] }

abbrev two_threads : MemAlloc
two_threads = record { arenas = []; pid_arena = (0, 0) ∷ (7, 1) ∷ (10, 2) ∷ [] }

registered : register_thread true false one_thread 10 2 ≡ ok two_threads
unfolding register_thread probe
registered = refl

get_arena_id-register_thread_example : get_arena_id true false two_threads 10 ≡ ok 2
get_arena_id-register_thread_example =
    get_arena_id-register_thread false one_thread two_threads 10 2
      ((λ e. omega (arith, e)), ((λ e. omega (arith, e)), ((λ e. omega (arith, e)), tt))) registered
