-- ===== src/Lib.antt =====
-- MemoryMutationTestingEngine evaluates the tests of a C program by mutation: the engine
-- (controller.c) puts one mutant after the other in the place of a source file, builds the
-- program and runs its tests by make, and counts which mutants the tests kill, which change the
-- control flow, and which cause memory errors. The tests are written for a changed copy of
-- CuTest, which tells the engine in the file temp_results.log how many mutants have been killed
-- and which tests failed.
--
-- The files and the code that they model:
--   Base: shared names, tests and lists; Base/Int integers; Base/Text the bytes of C strings
--     with the number formats of scanf and atoi; Base/Decimal "%d" and that it is read back;
--     Base/Double an interface for the doubles of the engine.
--   Cfg: CFGEval.c, calculateCFGBranchDeviation. Cfg/Deviation: what it computes.
--   CuTest: CuTest/CuTest.forked.c. CuTest/Text: CuStringInit, CuStringResize, CuStringAppend,
--     CuStringAppendChar, CuStringInsert, and Text/Bounds their use of memory. CuTest/Assertion:
--     CuFail_Line, CuAssert_Line and the other CuAssert functions, CuFailInternal, CuTestInit,
--     CuTestRun, and Assertion/Message what a failed test tells. CuTest/Suite: CuSuiteInit,
--     CuSuiteAdd, CuSuiteAddSuite. CuTest/Report: CuSuiteRun with the two files it writes.
--     CuTest/Summary: CuStringAppendFormat, CuSuiteSummary, CuSuiteDetails.
--   Libcheck: libcheck/src/check.c, record_mutation_results, which is the counterpart of
--     CuSuiteRun in the copy of libcheck, and its call in srunner_free. Libcheck/Recorded: what
--     the engine reads of its file. Libcheck/Unkilled: the counts of mutants whose tests use
--     libcheck.
--   Gstats: gstats.c. Gstats/Table: the interface that controller.c uses, integers by operator
--     and key. Gstats/Xml: the calls of libxml2 with their laws, a parameter. Gstats/Operators:
--     find_mutation_by_code, the get and the create_update functions, and below it what is read
--     after a write. Gstats/Derived: generate_derived_stats. Gstats/Store:
--     open_GStats, flush_GStats, close_GStats and clear_GStats on the content of the file, and
--     that sessions on it pass a document on.
--   Valgrind: the data of valgrindEval.h. Valgrind/Report: valgrindEval.c, evaluate_error_nodes
--     and valgrindXML_evaluate, with the bounds of the location and the counts below it.
--   Controller: controller.c. Controller/Results: get_non_trivial_FOM_stats, and below it the
--     round trip from CuSuiteRun. Controller/Process: startprogram, startMake, runMake.
--     Results/Bounds says what of the file fits the arrays that it is read to.
--     Controller/Mutants: the structs. Controller/Fom and Controller/Evaluate: genResultsFOM, in
--     its parts and as a whole, with modules for the tally of its counters, the room in its
--     arrays, the faults, and the verdicts of the tests. Controller/Inject: inject_mutations,
--     the loop over the directory of the mutants, and below it
--     what its counts say of the tests. Controller/Damage: calculate_average_damage.
--     Controller/Config: processConfigFile, and which settings give which configuration.
--     Controller/Source: process_source_file and process_source_directory, as far as results,
--     statistics and reports go. Controller/Actions: the programs that are started and the files
--     and variables that are set, by cleanUp, copy_file, extractCFGBranches, genValgrindResult,
--     filterMutants and the functions that call them, with Mode for the values of IS_MUTATE and
--     Files and Restore for the contents of files. Controller/Print: the text of
--     printValgrindResult. Controller/Main: main, with Trace for the actions of a whole run. The
--     accounts of the operators are followed
--     from Controller/Fom/Accounts over Evaluate/Balance and Source/Accounts to Main/Accounts.
--     Controller/Hom: genHOMFitness, with Arguments for those of combineFOM.sh, and Hom/Search:
--     generateSubsumingHOMs.
--   Examples: instances of the interfaces, and the theorems at concrete inputs.
--
-- The parts interact through files and counters. A run of the suite (cu_suite_run) takes and
-- gives the content of temp_results.log; the engine (gen_results_fom) reads it before and after
-- make, and takes a mutant for killed when the first number has grown by one. The state of the
-- engine (State) is FOMResult, the sizes of its two arrays, the statistics, the content of
-- temp_results.log and the log. What the outside does to one mutant is an Observation: the polls
-- of make, temp_results.log after it, the two gcov files, the Valgrind result, and whether gstats.c
-- comes back. A write past the end of an array of mutants, of killed_test_id, or of the buffers of
-- CuSuiteRun and CuStringAppendFormat, a read past the end of the array stats, an int division by
-- zero, an int overflow of the size of the archive, a null pointer that is followed, and an exit of
-- gstats.c are the result `none`.
--
-- Bounds: a child process is polled 2000 times, and make 3000 times, which are the loops of the
-- source; the arrays start with 200 places; the buffers of CuSuiteRun and of killed_test_id have
-- 1024 bytes. The recursions are structural, and the only fuel bounds the rounds of the search for
-- higher-order mutants, which need not end; the size of its archive overflows where it would grow
-- to 2^31, so not within 2^30 evaluations. Counters are taken to stay below 2^31. The rounding of
-- double is not modelled: where a theorem depends on arithmetic, it takes IsExact as a hypothesis,
-- which says that a quotient of two counts is zero or positive as the counts are.
--
-- Not modelled: fork and exec, and what kill does; the exits of gstats.c in what
-- process_source_file does after the mutants. controller.c is modelled over Gstats/Table, whose
-- laws are taken for all codes; Gstats/Operators has them for codes without an apostrophe, which
-- the mutation operators have. Also not modelled: the overflow of a count in a Valgrind report, and
-- elements of it without a text; lengths of paths; the texts of the log but its entries and those
-- of Valgrind results; the parse of XML and of configurations; how libconfig, the hash set, rand
-- and the file system work, which are parameters; a directory of mutants that cannot be opened; the
-- release of memory, and that there is none left; how double and pointers are printed.
-- libxml_commons.c only calls libxml2. hashset, PUTs and libcheck, but for record_mutation_results,
-- are copies of other projects, and the mutation operators are TXL programs.
pub mod Base
pub mod Cfg
pub mod CuTest
pub mod Gstats
pub mod Valgrind
pub mod Controller
mod Examples
pub mod Libcheck
