-- ===== src/Controller/Hom/Faults.antt =====
-- When the search for higher-order mutants faults.
use memory_mutation_testing.Base.Double.{Double}
