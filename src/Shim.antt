-- ===== src/Shim.antt =====
-- src/epdcshim.c: the library preloaded into the composer, a module for each group of functions.
pub mod State
pub mod Numbers
pub mod Tunables
pub mod Damage
pub mod Parms
pub mod Lookup
pub mod Request
pub mod Settle
pub mod Commit
pub mod Invariant
pub mod Memory
