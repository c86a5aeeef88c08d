-- ===== src/Tests/Latches.antt =====
-- An access set of two rows, the one with the greater key first.
use data_agent_demo.Prelude.{ℕ, ◌≡◌, refl, some, List, [], ◌∷◌}
use data_agent_demo.Run.{ok}
use data_agent_demo.System.{rd}
use data_agent_demo.Bytes.{strcmp}
use data_agent_demo.Row.{Row}
use data_agent_demo.Database.{Database, live, load}
use data_agent_demo.Txn.{Access}
use data_agent_demo.Txn.Validate.{orig, sort, row_greater}
use data_agent_demo.Txn.Accesses.{All}
use data_agent_demo.Txn.Sort.{Live}
use data_agent_demo.Txn.Ascends.{Ascends, sort-Ascends}
use data_agent_demo.Tests.{tiny_db, shared_row, copied_row}

abbrev other_row : Row
other_row = record shared_row { primary_key = 7 }

abbrev two_rows : Database
two_rows = record tiny_db { rows = live shared_row ∷ live other_row ∷ [] }

abbrev reads_row : ℕ → Access
reads_row p = record { type = rd; orig_row = some p; local = some copied_row }

abbrev read_both : List Access
read_both = reads_row 1 ∷ reads_row 0 ∷ []

orig_low : orig two_rows (reads_row 0) ≡ ok (0, shared_row)
unfolding orig load
orig_low = refl

orig_high : orig two_rows (reads_row 1) ≡ ok (1, other_row)
unfolding orig load
orig_high = refl

both-Live : All (Live two_rows) read_both
both-Live = (
  record { addr = 1; row = other_row; found = orig_high },
  (record { addr = 0; row = shared_row; found = orig_low }, tt),
)

sorts_both : sort two_rows 1 read_both ≡ ok (reads_row 0 ∷ reads_row 1 ∷ [])
unfolding sort load orig row_greater strcmp
sorts_both = refl

sort-Ascends_example : Ascends two_rows 2 read_both []
sort-Ascends_example = sort-Ascends two_rows 2 read_both [] refl both-Live
