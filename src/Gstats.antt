-- ===== src/Gstats.antt =====
-- gstats.c: the statistics by mutation operator, in an XML document.
pub mod Table
pub mod Xml
pub mod Operators
pub mod Derived
pub mod Store
