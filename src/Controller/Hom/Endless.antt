-- ===== src/Controller/Hom/Endless.antt =====
-- The search for higher-order mutants goes on while their evaluations succeed.
use memory_mutation_testing.Base.{Option}
use memory_mutation_testing.Base.Double.{Double}
use memory_mutation_testing.Controller.Hom.Search.{Search}
