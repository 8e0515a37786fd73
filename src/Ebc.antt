-- ===== src/Ebc.antt =====
-- The command line tools that talk to /dev/ebc: src/ebctool.c, ebcinit.c, ebcpush.c, ebcprobe.c,
-- ebcrefresh.c, ebcfb.c.
pub mod Device
pub mod Jot
pub mod Tool
pub mod Dump
pub mod Init
pub mod Push
pub mod Probe
pub mod Refresh
pub mod Fb
pub mod Staged
