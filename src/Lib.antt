-- ===== src/Lib.antt =====
-- Parts of the Redox kernel, translated from its Rust code, with the theorems that make them
-- correct. The paths below are those of the repository.
--
-- The parts and the files that model them:
--   Memory/Holes        src/context/memory.rs, the `holes` of `UserGrants`: the free regions of an
--                       address space as a sorted map from a start to a size. `reserve` and
--                       `unreserve` are what `UserGrants::insert` and `UserGrants::remove` call for a
--                       mapping, and `find_free_near` is the search that `mmap` makes.
--   Memory/Span         src/context/memory.rs, `PageSpan`, and the pages of
--                       src/arch/x86_shared/paging/mod.rs.
--   Memory/Grants       src/context/memory.rs, `UserGrants`, `Grant` and `AddrSpace`: what is mapped in
--                       an address space. Grants is the data and `Grant::extract`, Table the map of
--                       grants and its holes, Munmap `munmap_inner`, Mmap `mmap`, Mprotect `mprotect`;
--                       the proofs see the grants as a map from pages (Pages): a page sees the flags,
--                       whether it is mapped, and the frame, the place in a file or the address space
--                       behind it, but not the pins, nor the page in a borrowed address space.
--                       Whether the frames of a grant are contiguous, a mark of the whole grant that
--                       cutting takes away, is followed apart from the pages (Runs).
--                       Grants and holes are well-formed (Insert) if the grants are disjoint, mapped,
--                       not empty and below the limit, those that borrow frames have some above
--                       address 0 and below 2 ^ 64, and the holes are the pages of no grant.
--   Memory/PageInfo     src/memory/mod.rs, `PageInfo` and `RefCount`: the reference count of a page,
--                       packed with two flags into one word.
--   Memory/Sections     src/memory/mod.rs, `get_page_info`: the search of the sections of memory.
--   Memory/Buddy        src/memory/mod.rs, the allocator of frames: `allocate_p2frame_complex` and
--                       `deallocate_p2frame` on the free lists, whose links are the words of PageInfo.
--                       P2Frame packs a link. The proofs see blocks of frames that are free, in use or
--                       in the allocator's hands (Layout), and the invariant is in Valid.
--   Context/FdTbl       src/context/context.rs, `FdTbl`: the file descriptors of a context, which the
--                       system calls on files use.
--   Context/Switch      src/context/switch.rs and `Status` of src/context/context.rs: which context a
--                       processor runs next, one step of one processor under the global lock.
--   Context/Timeout     src/context/timeout.rs: the registry of timeouts. The events that `trigger`
--                       sends are the list of the timeouts that it fired.
--   Syscall/UserCopy    src/syscall/usercopy.rs: slices of user memory, and integers in it (Integers),
--                       which the handlers of system calls and schemes copy from and to.
--   Syscall/Futex       src/syscall/futex.rs: waiting for a word of memory, up to the switch and after it,
--                       and waking those who wait, with the contexts of Context/Switch.
--   Scheme/Pipe         src/scheme/pipe.rs: the pipe scheme. `kread` and `kwrite` copy through
--                       Syscall/UserCopy; events and wake-ups are notes in the order they are sent.
--   Sync                src/sync/wait_condition.rs and src/sync/wait_queue.rs: contexts that wait to be
--                       notified, with the contexts of Context/Switch, and queues whose receivers wait,
--                       from which Syscall/UserCopy copies.
--   Event               src/event.rs: the registry of event queues, and how `trigger` passes an event
--                       on from queue to queue, against the registrations (Deliveries); Write is
--                       `EventQueue::write`.
--   VfsCache            src/vfs_cache.rs: the cache of path lookups.
--   Common              lists, words of 64 bits, results, ordered maps that stand for `BTreeMap` and,
--                       where the order does not matter, for `HashMap`.
-- A module that models code holds the definitions, and its children the proofs; the child Tests runs
-- the definitions on concrete data.
--
-- Stateful code takes the state and returns the new one. A function that can fail or panic returns a
-- `Result`: a value, an error number, or a panic. A `usize` is a natural number with the
-- wrap-around at 2 ^ 64 written out. Locks are not modelled: an operation is one step, as under its
-- lock. A blocking loop is one pass, which returns or says that it waits. Parameters, with what the
-- code relies on as hypotheses: the page size, the tag of the upper descriptor table and the clock
-- numbers of redox_syscall, the two slices of a `VecDeque`, the bytes of its elements, the order of strings, the readings of the
-- clock, which user memory the page tables let the kernel read and write, their translations, the
-- loads of a futex, the flags of pages, and what makes the grant that `mmap` inserts.
--
-- Four loops are on fuel. That of `trigger` of timeouts: each turn passes an entry or removes one, so
-- one turn more than there are entries is enough. That of `trigger` of events: each queue is asked
-- once, so twice the number of registrations and one turn more is enough. That of `munmap_inner`: each
-- turn shortens the span that is left, so one turn more than the span has pages is enough. That of
-- `FUTEX_WAKE`: each turn passes an entry or removes one, so one turn more than there are entries is
-- enough. All others are structural recursions.
--
-- In the frame allocator a frame is the number of its page. Its debug assertions, the zeroing of the
-- frames and the set-up of the lists are left out, and what `get_page_info` answers for each frame is
-- part of its state; the theorems on it ask that no frame that it knows has a power of two below
-- 2 ^ 10 as its number, since there the search for a sibling panics.
--
-- Not modelled: page tables and the page fault, the switch of registers, the other schemes, and the
-- code of the processors and devices.
pub mod Common
pub mod Context
pub mod Event
pub mod Memory
pub mod Scheme
pub mod Sync
pub mod Syscall
pub mod VfsCache
