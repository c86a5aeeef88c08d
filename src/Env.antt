-- ===== src/Env.antt =====
-- What the storage code takes from the C++ library, as a parameter of the model.
use data_agent_demo.Prelude.{ℕ, ◌<◌, ◌≡◌, length}
use data_agent_demo.Bytes.{Bytes}
use data_agent_demo.System.{word64}

pub record Env : Type 0 where
  -- `std::hash<std::string>`, a `size_t`
  pub hash : Bytes → ℕ
  pub hash_bound : (key : Bytes) → hash key < word64
  -- the contents of a fresh block of `_mm_malloc`, which are not specified, but for their number
  pub malloc : ℕ → Bytes
  pub length-malloc : (n : ℕ) → length (malloc n) ≡ n
  -- a word of such a block that nothing has set
  pub junk : ℕ
