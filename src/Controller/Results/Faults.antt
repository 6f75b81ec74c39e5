-- ===== src/Controller/Results/Faults.antt =====
-- When the run of a suite faults.
use memory_mutation_testing.Base.{◌≡◌, true, Option}
use memory_mutation_testing.Base.Text.{Bytes}
use memory_mutation_testing.CuTest.Suite.{CuSuite, run_tests}
use memory_mutation_testing.CuTest.Report.{killed_ids, killed_array, join_ids}
use memory_mutation_testing.Controller.Results.RoundTrip.{join_killed}

-- The numbers of the failed tests, with commas between them.
abbrev pub listed : CuSuite → Bytes
listed suite = join_ids true (killed_ids 0 (run_tests suite).list)

printed : (suite : CuSuite) → join_ids true (killed_array (run_tests suite).list) ≡ listed suite
printed suite = join_killed (run_tests suite).list
