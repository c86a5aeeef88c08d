-- ===== src/Alloc.antt =====
-- Storage/System/mem_alloc.h and mem_alloc.cpp: the arenas of the threads and their free lists. The address of
-- a fresh block of `malloc` is an argument, `fresh`.
pub mod Arenas
use data_agent_demo.Prelude.{
  ℕ, zero, suc, ◌+◌, ◌-◌, ◌*◌, ◌/◌, ◌%◌, ◌<◌, ◌≡◌, Bool, true, false, not, ◌&&◌, ◌||◌, Option, none,
  some, List, [], ◌∷◌, ltb, leb, ◌==◌, if◌then◌else◌, length, get_elem?, set, replicate,
}
use data_agent_demo.Run.{
  Run, ok, fault, assertion, out_of_bounds, endless, division_by_zero, check, or_fault, ◌>>=◌, ◌>>◌,
}
use data_agent_demo.System.{thread_cnt, init_parallelism, part_alloc}

-- `sizeof (FreeBlock)`
abbrev pub header : ℕ
header = 16

abbrev pub block_sizes : List ℕ
block_sizes = 32 ∷ 64 ∷ 256 ∷ 1024 ∷ []

abbrev pub max_block : ℕ
max_block = 1024

-- The blocks of the free list, by address, are those that `next` links from `_head`.
pub record Arena : Type 0 where
  pub buffer : ℕ
  pub size_in_buffer : ℕ
  pub arena_id : ℕ
  pub block_size : ℕ
  pub head : List ℕ

unfoldable pub init_arena : ℕ → ℕ → Arena
init_arena arena_id size = record {
  buffer = 0;
  size_in_buffer = 0;
  arena_id = arena_id;
  block_size = size;
  head = [];
}

-- a block with its header, rounded up to `MEM_ALLIGN`
abbrev pub rounded : ℕ → ℕ
rounded block_size = (block_size + header + 7) / 8 * 8

abbrev refill : ℕ → Arena → Arena
refill fresh a =
    if ltb a.size_in_buffer (rounded a.block_size)
    then record a { buffer = fresh; size_in_buffer = a.block_size * 40960 }
    else a

-- the next block of the buffer: its address, and the arena behind it
abbrev bump : Arena → ℕ × Arena
bump a = (
  a.buffer + header,
  record a {
    buffer = a.buffer + rounded a.block_size;
    size_in_buffer = a.size_in_buffer - rounded a.block_size;
  },
)

-- `Arena::alloc`
unfoldable pub alloc_block : ℕ → Arena → ℕ × Arena
alloc_block fresh a = elim a.head [
  | [] ↦ bump (refill fresh a)
  | block ∷ rest ↦ (block + header, record a { head = rest })
]

-- `Arena::free`
unfoldable pub free_block : Arena → ℕ → Arena
free_block a ptr = record a { head = (ptr - header) ∷ a.head }

size_from : ℕ → List ℕ → ℕ → Run ℕ
size_from size [] i = fault assertion
size_from size (b ∷ bs) i =
    let rest = size_from size bs (suc i) in if leb size b then ok i else rest

unfoldable pub get_size_id : ℕ → Run ℕ
unfolding size_from
get_size_id size = size_from size block_sizes 0

-- The loop of `register_thread` and of `get_arena_id`: from entry to entry, up to the first whose thread
-- `stop` accepts. After as many steps as there are entries it goes round for ever.
unfoldable pub probe : (ℕ → Bool) → List (ℕ × ℕ) → ℕ → ℕ → Run ℕ
probe stop pid_arena zero entry = fault endless
probe stop pid_arena (suc k) entry = do
  e ← or_fault (get_elem? pid_arena entry) out_of_bounds
  let rest = probe stop pid_arena k ((entry + 1) % length pid_arena)
  if stop e.0 then ok entry else rest

abbrev pub is_free : ℕ → Bool
is_free first = first == 0

abbrev pub ends_at : ℕ → ℕ → Bool
ends_at pid first = first == pid || first == 0

pub record MemAlloc : Type 0 where
  pub arenas : List (List Arena)
  pub pid_arena : List (ℕ × ℕ)

-- The settings THREAD_ALLOC and NO_FREE.
module _ (thread_alloc no_free : Bool) where
  unfoldable pub register_thread : MemAlloc → ℕ → ℕ → Run MemAlloc
  unfolding probe
  register_thread m pid thd_id =
      if thread_alloc
      then (do
        check (ltb 0 (length m.pid_arena)) division_by_zero
        entry ← probe is_free m.pid_arena (length m.pid_arena) (pid % length m.pid_arena)
        ok (record m { pid_arena = set m.pid_arena entry (pid, thd_id) }))
      else ok m

  unfoldable pub unregister : MemAlloc → MemAlloc
  unregister m =
      if thread_alloc then record m { pid_arena = replicate (length m.pid_arena) (0, 0) } else m

  unfoldable pub get_arena_id : MemAlloc → ℕ → Run ℕ
  unfolding probe
  get_arena_id m pid = do
    check (ltb 0 (length m.pid_arena)) division_by_zero
    entry ← probe (ends_at pid) m.pid_arena (length m.pid_arena) (pid % length m.pid_arena)
    e ← or_fault (get_elem? m.pid_arena entry) out_of_bounds
    ok e.1

  -- the arena of the calling thread for a size class, with its place
  arena_of : MemAlloc → ℕ → ℕ → Run (ℕ × ℕ × List Arena × Arena)
  unfolding get_arena_id get_size_id
  arena_of m pid size = do
    arena_id ← get_arena_id m pid
    size_id ← get_size_id size
    classes ← or_fault (get_elem? m.arenas arena_id) out_of_bounds
    arena ← or_fault (get_elem? classes size_id) out_of_bounds
    ok (arena_id, size_id, classes, arena)

  abbrev put_arena : MemAlloc → ℕ → ℕ → List Arena → Arena → MemAlloc
  put_arena m arena_id size_id classes arena = record m {
    arenas = set m.arenas arena_id (set classes size_id arena);
  }

  -- `alloc`; `pooled` is `warmup_finish || enable_thread_mem_pool`.
  unfoldable pub alloc : Bool → ℕ → ℕ → MemAlloc → ℕ → Run (ℕ × MemAlloc)
  unfolding arena_of alloc_block
  alloc pooled pid fresh m size =
      if ltb max_block size
      then ok (fresh, m)
      else if thread_alloc && pooled
      then (do
        (arena_id, size_id, classes, arena) ← arena_of m pid size
        let (ptr, arena') = alloc_block fresh arena
        ok (ptr, put_arena m arena_id size_id classes arena'))
      else ok (fresh, m)

  -- `free`; `block_size` is what the header in front of `ptr` holds.
  unfoldable pub free : ℕ → MemAlloc → ℕ → ℕ → Run MemAlloc
  unfolding arena_of free_block
  free pid m ptr block_size =
      if no_free
      then ok m
      else if thread_alloc
      then (do
        (arena_id, size_id, classes, arena) ← arena_of m pid block_size
        ok (put_arena m arena_id size_id classes (free_block arena ptr)))
      else ok m

abbrev classes : ℕ → List ℕ → List Arena
unfolding init_arena
classes i [] = []
classes i (b ∷ bs) = init_arena i b ∷ classes i bs

-- the outer loop of `init_thread_arena`, from arena `i` on
init_arenas : ℕ → ℕ → List (List Arena)
unfolding classes
init_arenas zero i = []
init_arenas (suc n) i = classes i block_sizes ∷ init_arenas n (suc i)

-- the greater of the two counts of threads
abbrev pub most_threads : ℕ
most_threads = if ltb thread_cnt init_parallelism then init_parallelism else thread_cnt

-- `init_thread_arena`; `sizeof (Arena)` is what the assertion wants.
unfoldable pub init_thread_arena : MemAlloc → MemAlloc
unfolding init_arenas
init_thread_arena m = record m { arenas = init_arenas most_threads 0 }

-- `mem_alloc::init`, under THREAD_ALLOC
unfoldable pub init : Bool → MemAlloc → Run MemAlloc
unfolding init_thread_arena
init thread_alloc m = do
  let m' : MemAlloc = record m { pid_arena = replicate (most_threads * 4 + 1) (0, 0) }
  if thread_alloc then (do check (not part_alloc) assertion; ok (init_thread_arena m')) else ok m'
