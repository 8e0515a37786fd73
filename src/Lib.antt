-- ===== src/Lib.antt =====
-- The e-paper display code of the port: libepdcshim (src/epdcshim.c), the shared mapping of
-- src/epdc_damage.h with its writer in SurfaceFlinger, and the command line tools that talk to the
-- display drivers or watch others do so.
--
-- How the program works. The shim is preloaded into the display composer and takes the place of two
-- functions of libdrm. `drmModeAtomicAddProperty` notes the objects that the composer puts in a
-- request and the frame buffer of each; `drmModeAtomicCommit` reads what SurfaceFlinger has damaged,
-- chooses a waveform and up to eight rectangles, adds two properties to each plane of the request
-- that has them, and then makes the composer's own commit. A thread of the shim sends one full
-- update to /dev/ebc when the screen has been quiet for a while. SurfaceFlinger publishes its damage
-- through a page of shared memory under a sequence lock.
-- The tools make requests to /dev/ebc by hand (ebctool, ebcinit, ebcpush, ebcprobe, ebcrefresh,
-- ebcfb), list what /dev/dri offers (drmprops), or log the requests of another process, preloaded
-- into it (ebctrace) or by ptrace (ebcptrace).
--
-- The files.
--   Base           shared names, lists over the native numbers, the machine's integers, and arrays of
--                  words in bytes
--   Shim/State     the static variables of src/epdcshim.c as the record Shim; Env holds what libdrm,
--                  libc and the kernel answer during one call of a handler; Call lists what leaves
--                  the shim
--   Shim/Numbers   str_eq and parse_num, on texts as lists of bytes
--   Shim/Tunables  resolve, prop_num, now_ms and refresh_tunables
--   Shim/Damage    attach_damage and read_damage, with the loop over four attempts
--   Shim/Parms     init_parms: policy, clamping and the array g_parms; Shim/Parms/Layout has its bytes
--   Shim/Lookup    lookup: the cache of property ids; Shim/Lookup/Results has what it does with the
--                  results of libdrm, in the pointers op and pr, and Shim/Lookup/Planes what makes
--                  an object a plane of the panel
--   Shim/Request   drmModeAtomicAddProperty
--   Shim/Settle    settle_now, one round of settle_thread, and start_settle_thread
--   Shim/Commit    drmModeAtomicCommit, from the last statements (submit) back to the first (commit)
--   Shim/Memory    memset and memcpy, over a memory of bytes without end
--   Shim/Invariant the invariant of the static variables, over any sequence of calls and rounds
--   Seqlock        writer (patches/main/0002-frameworks-native-surfaceflinger-publish-epd-damage.patch)
--                  and reader as steps of one load or store, in any order; Seqlock/Relaxed has the
--                  reader's loads in the orders that its acquire loads allow
--   Publish        the writer's code: epdcDamageMap, collectEpdcDamage, publishEpdcDamage and the lines
--                  that the patch adds to finishFrame, as lists of stores; below it, what links them
--                  with Seqlock and with the shim's commit
--   Settling       drmModeAtomicCommit and settle_thread as steps of one access to the variables that
--                  they share, in any order
--   Ebc/Device     the structs and calls that the tools share, and their loop over the options
--   Ebc/Tool       src/ebctool.c
--   Ebc/Init       src/ebcinit.c
--   Ebc/Push       src/ebcpush.c
--   Ebc/Probe      src/ebcprobe.c
--   Ebc/Refresh    src/ebcrefresh.c
--   Ebc/Fb         src/ebcfb.c
--   Ebc/Staged     the stages of ebcpush and ebcprobe together
--   Ebc/Dump       dump_buffer of src/ebctool.c
--   Ebc/Jot        the journal line that three of the tools write (jot), dump_words and dump_info
--   Print          what the tools use of the printf family: pieces, and buffers filled by snprintf
--   Trace          src/ebctrace.c: ebctrace_init, classify, dump_arg and the interposed ioctl
--   Ptrace         src/ebcptrace.c: attach_all and the loop over the stops
--   Drm            src/drmprops.c: dump_obj and main, with the arrays on the heap
--   Tests          runs on concrete inputs, and the theorems at such inputs
-- The files below a module hold the theorems about it.
--
-- Choices. The shim's `real_add` and `real_commit` are always found, since libdrm is loaded where
-- the shim is. Log lines of the shim and the two variables that only guard them are left out. `++`
-- on a signed integer wraps in two's complement where C leaves it open, and so do the additions of
-- `parse_num` and `now_ms`. A handler sees one answer of each library function for each argument.
-- In Seqlock memory is sequentially consistent, but for the loads of Seqlock/Relaxed, where the
-- writer's stores are still seen in their order; the two fields behind `seq` are one cell each and
-- every coordinate is a cell. In Seqlock the writer's choice of rectangles is any list of at most
-- eight; Publish gives the code's choice. In Publish/Frames each publication and each commit is a
-- whole. `seq` is counted without bound and read modulo 2 ^ 32. In Shim/Settle a round of the
-- thread is one function; Settling takes it apart. The tools journal to a file only with `--log`;
-- their lines are kept as format strings. `atoi`, `strtol`, the results of requests and what these
-- write are parameters; the messages of ebctool are left out. In Print a buffer holds the bytes
-- that are known to stand in it, and a call whose room has wrapped below zero is given the wrapped
-- room. An argument of the traced `ioctl` is null or has at least 48 bytes; the preloaded library
-- answers one call at a time. Ptrace takes the reports of waitpid as they have been decoded
-- (nothing, the end of a thread, a stop with its signal) and the turns that the deadline leaves as
-- a list. In Drm memory is always found. The bytes of the mapping of ebcfb do not change while they
-- are counted.
--
-- The loop of `read_damage` has its own bound of four attempts. The loop of ebcrefresh runs on fuel,
-- of which count + 1 is enough where `--count` is not negative. The digits of n are taken on fuel
-- n + 1, which is enough for all of them (Print/Values). Every other loop is over a list or a number.
--
-- Not modelled: what ebcfb and drmprops print of words, bytes and names, the messages of ebctool,
-- and everything that is no C code.
pub mod Base
pub mod Shim
pub mod Publish
pub mod Seqlock
pub mod Settling
pub mod Print
pub mod Trace
pub mod Ptrace
pub mod Drm
pub mod Ebc
mod Tests
