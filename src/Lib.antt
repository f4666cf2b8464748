-- ===== src/Lib.antt =====
-- sleepy_penguin: the C extension that gives Ruby epoll, kqueue, eventfd, timerfd, inotify, sendfile,
-- splice, tee and copy_file_range.
--
-- The parts and how they interact. Each class of the extension is a file of ext/sleepy_penguin: its
-- constructor makes a descriptor and hands it to Ruby, its methods make system calls on it, and retry
-- them where a signal or a wait says so. They share util.c (flags, descriptors, waiting, a collection
-- where descriptors run out) and the thread-local buffers of init.c, which epoll.c, kqueue.c and
-- inotify.c take before they block and give back under rb_ensure.
--
-- How the code is modelled.
-- Proc: a method is a function from a state of one native thread to a run. The state has errno, the
--   buffers by address, the pointer of the thread-specific key, and a world of any type. A run gives a
--   result, raises a Ruby exception, crashes (a failed assertion or an access to freed memory), or is
--   out of fuel. Proc/Loop has the retry loops (goto, for, do while) as one combinator on fuel;
--   Proc/Sat, Proc/Frame, Proc/Halts, Proc/Patience and Proc/Quiet have the rules to reason with.
-- Ruby: VALUEs by their TYPE, and the functions of the Ruby VM, fcntl and posix_memalign, which are
--   parameters. The law of Allocates is malloc's: a new buffer does not overlay a live one.
-- Tls: init.c, rb_sp_gettlsbuf, rb_sp_puttlsbuf and the destructor of the key. Tls/Inv has the
--   invariant of one thread and the contract. Tls/Threads has the native threads of a process over one
--   heap, as a step relation: a thread takes a buffer, puts one back, ends, or does something else. A
--   buffer that is out when its thread ends is freed if it is the thread's own; any other is lost.
-- Util: util.c. retry_after_gc is the second attempt that four constructors make alike.
-- EventFd, TimerFd, Epoll, Kqueue, Inotify, Sendfile: the file of that name, in lower case.
-- Timespec: value2timespec.h, and tssub of kqueue.c, with the arithmetic of double as a parameter.
-- Copy: splice.c, cfr.c and sp_copy.h.
-- Missing: missing_*.h, and the macros that sleepy_penguin.h and splice.c define where a system lacks
--   them. A set of headers is a function from macros to numbers, where they are defined.
-- Registry: Ruby's table of names as a list of bindings, and the calls that fill it as data, each with
--   the #ifdef that it stands in. A macro that is used and not defined stops the build.
-- Init: Init_sleepy_penguin_ext and sp_once. The tables that it registers are in the files Setup of
--   each part, as the functions sleepy_penguin_init_*.
-- Copy/Accounts, TimerFd/Total: what a call reports against what the kernel has done.
-- EventFd/Counter: eventfd(2) as an abstract counter, for the calls of incr and value.
-- Kqueue/Total, Epoll/Total, Inotify/Total: whole calls, with their buffers; Util/Yields, Kqueue/Yields
--   and Epoll/Yields count the calls of the block.
-- Sendfile/Contract: what sendfile(2) promises; Sendfile/Whole uses it, Sendfile/Emulated fills it.
-- Kqueue/Convert: the conversion of a changelist. Epoll/Timeout, Kqueue/Resume and Kqueue/Deadline are
--   about the arguments of a wait over its rounds.
-- Inotify/Wire: the walk over the bytes of a read; Inotify/Wire/Encode writes them as inotify(7) says.
-- Base: names of the libraries, integers of C, and the numbers of errno.
-- Tests: a small kernel and VM, and the theorems at concrete states.
-- A function of the model has the name of its C function; a loop's body is that name with _round.
--
-- Bounds and fuel. A descriptor, a timeout and a count are integers that the conversion functions of
-- the VM have checked; the milliseconds of epoll.c wrap at 2^64, the sizes of buffers are natural
-- numbers with the test against UINT32_MAX as in the source. RARRAY_LENINT is Ruby's, which raises
-- RangeError for a length that is no int, and not the cast that kqueue.c has for a Ruby without it. A loop on fuel that is given fewer rounds
-- than it needs is out of fuel, which is no result: a safety theorem speaks of whatever fuel. The
-- theorems on termination ask for one unit more than the interruptions that the world has in store.
-- sendfile has two rounds because it goes back once. The walk over inotify events has a unit per byte.
--
-- In Tls/Threads a call of init.c is one step, as it runs under Ruby's lock. The step of a request that
-- raises stands for those exceptions that have freed no buffer at rest; Tls/Dangling is about the other
-- ones. A thread puts back the buffers that it took itself.
--
-- What a block does with the buffers of its thread is not modelled: a call into Ruby, as rb_yield_values,
-- leaves them as they are. Tls/Bracket has the rule for work that takes and returns buffers itself, and
-- in Tls/Threads a thread may have several buffers out at a time.
--
-- The theorems on a counter speak of a descriptor that nobody else writes to or reads from; where the
-- object is closed and opened again in between they say nothing.
--
-- Not modelled: the release of Ruby's lock round a system call, the Ruby files under lib, the contents
-- of buffers between calls, a block of Inotify#each that takes events of the same object, and signalfd,
-- whose initialiser init.c names and for which ext/sleepy_penguin has no file.
pub mod Base
pub mod Copy
pub mod Epoll
pub mod EventFd
pub mod Init
pub mod Inotify
pub mod Kqueue
pub mod Missing
pub mod Proc
pub mod Registry
pub mod Ruby
pub mod Sendfile
pub mod Tests
pub mod Timespec
pub mod TimerFd
pub mod Tls
pub mod Util
