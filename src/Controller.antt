-- ===== src/Controller.antt =====
-- controller.c: the mutation engine.
pub mod Results
pub mod Process
pub mod Mutants
pub mod Fom
pub mod Evaluate
pub mod Inject
pub mod Damage
pub mod Config
pub mod Source
pub mod Actions
pub mod Print
pub mod Main
pub mod Hom
