-- ===== src/System.antt =====
-- The shared vocabulary of Storage/System: the result codes and access kinds of global.h, and the
-- limits of config.h that the modelled code reads.
use data_agent_demo.Prelude.{ℕ, ◌^◌, Bool, true, false}

-- `enum RC`
pub data Rc : Type 0 where
  rcok commit abort wait error finish : Rc

unfoldable pub rcok? : Rc → Bool
rcok? rcok = true
rcok? _ = false

-- `enum access_t`
pub data AccessType : Type 0 where
  rd wr xp scan : AccessType

-- `enum TsType`
pub data TsType : Type 0 where
  r_req w_req p_req xp_req : TsType

abbrev pub max_row_per_txn : ℕ
max_row_per_txn = 64

abbrev pub per_row_valid : Bool
per_row_valid = true

abbrev pub thread_cnt : ℕ
thread_cnt = 4

abbrev pub part_cnt : ℕ
part_cnt = 1

abbrev pub page_size : ℕ
page_size = 4096

abbrev pub part_alloc : Bool
part_alloc = false

-- `g_init_parallelism`, `BUCKET_CNT` and `MEM_ALLIGN`
abbrev pub init_parallelism : ℕ
init_parallelism = 40

abbrev pub bucket_cnt : ℕ
bucket_cnt = 31

abbrev pub mem_align : ℕ
mem_align = 8

-- `enum TestCases`
pub data TestCases : Type 0 where
  read_write conflict : TestCases

abbrev pub word64 : ℕ
word64 = 2 ^ 64

abbrev pub word32 : ℕ
word32 = 2 ^ 32
