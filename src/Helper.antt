-- ===== src/Helper.antt =====
-- Storage/System/helper.h and helper.cpp: merged index keys, the random numbers, and where a key or an address
-- belongs.
pub mod Links
pub mod Queue
pub mod Keys
use Prim.Native.Nat.{bit_or}
use data_agent_demo.Prelude.{
  ℕ, zero, suc, ◌+◌, ◌*◌, ◌/◌, ◌%◌, ◌^◌, ◌≡◌, Bool, true, false, not, ◌&&◌, List, [], ◌∷◌, ltb,
  ◌==◌, if◌then◌else◌, get_elem?,
}
use data_agent_demo.Run.{
  Run, ok, assertion, out_of_bounds, overflow, division_by_zero, check, or_fault, ◌>>=◌, ◌>>◌,
}
use data_agent_demo.System.{word64, thread_cnt, part_cnt, page_size, part_alloc}
use data_agent_demo.IndexHash.{DataType, dt_table, dt_page, dt_row, Item}

abbrev same_type : DataType → DataType → Bool
same_type dt_table dt_table = true
same_type dt_page dt_page = true
same_type dt_row dt_row = true
same_type _ _ = false

-- `itemid_t::operator==`, `operator!=`, `operator=` and `init`
unfoldable pub same_item : Item → Item → Bool
same_item a b = same_type a.type b.type && a.location == b.location

unfoldable pub differ : Item → Item → Bool
unfolding same_item
differ a b = not (same_item a b)

unfoldable pub assign : Item → Item → Run Item
unfolding same_item
assign target other = do
  let target' : Item = record target {
    valid = other.valid;
    type = other.type;
    location = other.location;
  }
  check (same_item target' other) assertion
  check target'.valid assertion
  ok target'

unfoldable pub init_item : Item → Item
init_item i = record i { valid = false; location = 0 }

unfoldable pub get_thdid_from_txnid : ℕ → ℕ
get_thdid_from_txnid txnid = txnid % thread_cnt

unfoldable pub get_part_id : ℕ → ℕ
get_part_id addr = addr / page_size % part_cnt

unfoldable pub key_to_part : ℕ → ℕ
key_to_part key = if part_alloc then key % part_cnt else 0

-- `key << n` on 64 bits
abbrev pub shift_left : ℕ → ℕ → ℕ
shift_left n key = key * 2 ^ n % word64

-- The loop of `merge_idx_key (key_cnt, keys)`, with the rounds that are left.
unfoldable pub merge_rounds : ℕ → ℕ → List ℕ → ℕ → ℕ → Run ℕ
merge_rounds len zero keys i key = ok key
merge_rounds len (suc rounds) keys i key = do
  k ← or_fault (get_elem? keys i) out_of_bounds
  check (ltb k (2 ^ len)) assertion
  merge_rounds len rounds keys (suc i) (bit_or (shift_left len key) k)

-- `merge_idx_key (key_cnt, keys)`; the shift `1UL << len` needs `len` below 64.
unfoldable pub merge_keys : ℕ → List ℕ → Run ℕ
unfolding merge_rounds
merge_keys key_cnt keys = do
  check (not (key_cnt == 0)) division_by_zero
  let len = 64 / key_cnt
  check (ltb len 64) overflow
  merge_rounds len len keys 0 0

-- `merge_idx_key (key1, key2)` and `merge_idx_key (key1, key2, key3)`
unfoldable pub merge_two : ℕ → ℕ → Run ℕ
merge_two key1 key2 = do
  check (ltb key1 (2 ^ 32) && ltb key2 (2 ^ 32)) assertion
  ok (bit_or (shift_left 32 key1) key2)

unfoldable pub merge_three : ℕ → ℕ → ℕ → Run ℕ
merge_three key1 key2 key3 = do
  check (ltb key1 (2 ^ 21) && (ltb key2 (2 ^ 21) && ltb key3 (2 ^ 21))) assertion
  ok (bit_or (bit_or (shift_left 42 key1) (shift_left 21 key2)) key3)

-- `myrand`: its seed. `RAND_MAX` is the C library's.
pub record MyRand : Type 0 where
  pub seed : ℕ

unfoldable pub init_rand : ℕ → MyRand
init_rand seed = record { seed = seed }

unfoldable pub next_rand : ℕ → MyRand → ℕ × MyRand
next_rand rand_max r =
    let seed = (r.seed * 1103515247 + 12345) % word64 % 2 ^ 63 in
    (seed / 65537 % rand_max, record { seed = seed })
