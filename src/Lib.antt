-- ===== src/Lib.antt =====
-- Excimer, a PHP extension that interrupts the virtual machine by timers and records where it is.
--
-- The program. timerlib starts an operating system timer whose expiries a handler thread reports.
-- excimer_timer.c takes each report (excimer_timer_handle), counts it, puts the timer on the pending
-- list of the PHP thread and raises the flag that makes the virtual machine call
-- excimer_timer_interrupt, which empties the list and calls the timers' callbacks. The callback of a
-- profiler, in excimer.c, adds a sample of the call stack to a log. excimer_log.c keeps the samples:
-- an array of frames, each with the index of its caller's frame, a reverse table that finds a frame
-- by its location, and an array of entries, each with the index of the innermost frame.
--
-- The files.
--   Prelude, Run, Bytes: shared names, the outcome of C functions, byte strings and their decimals.
--   Zend: the hash table of the Zend Engine, an interface with the documented behaviour of a PHP
--     array. Zend/Assoc is a concrete table.
--     Zend/Strings, Zend/Objects: the reference counts of its strings and objects, interfaces.
--     Zend/Counts and Zend/Handles are concrete heaps.
--   Log: the records of excimer_log.h and the accessors of excimer_log.c (excimer_log_init,
--     excimer_log_set_max_depth, excimer_log_copy_options, excimer_log_get_size,
--     excimer_log_get_entry, excimer_log_get_frame) and excimer_safe_uint32 of php_excimer.h.
--   Log/Key: the key of a frame. Log/Sample: excimer_log_add, excimer_log_find_or_add_frame,
--     excimer_log_get_truncation_marker. The call stack is a list, the innermost call first.
--   Log/Valid, Log/Register, Log/Depth, Log/Recorded, Log/Total, Log/Again, Log/Add: the invariant
--     of a log, what is recorded of a stack, and the proofs on excimer_log_add.
--   Log/Name: excimer_log_append_no_spaces, excimer_log_append_frame_name and
--     excimer_log_get_speedscope_frame_key.
--   Log/Trace: excimer_log_frame_to_array, excimer_log_trace_to_array, excimer_log_count_frames.
--   Log/Walk, Log/Roundtrip: the proofs on them.
--   Log/Collapsed: excimer_log_format_collapsed.
--   Log/Aggregate: excimer_log_aggr_by_func. Its children follow one information, one frame, and
--     the backtraces of all entries.
--   Log/Speedscope: excimer_log_get_speedscope_data. Its children follow the shared frames, the
--     samples and the whole data.
--   Log/Object, Log/Iteration: the classes ExcimerLog and ExcimerLogEntry of excimer.c and the
--     iterator that foreach takes. An entry object is its index.
--   Profiler, Profiler/Event: the class ExcimerProfiler of excimer.c: its settings, start, stop,
--     the timer event and the flush.
--   TimerObject: the class ExcimerTimer and excimer_set_timeout of excimer.c. Profiler/Starts
--     and TimerObject/Starts: starting them, on Timer/Reuse, the lemmas on a timer initialised
--     again, and Timer/Arms, what a start asks of the system. Profiler/Tick: from the expiries
--     of a profiler's timer to its sample. Profiler/Interrupts: the interrupt with several
--     profilers.
--   Timespec: the integer operations of timerlib/timerlib_common.c and timerlib/timerlib.h.
--     Timespec/Double: the conversions from and to floating-point numbers, which are an interface.
--   Timer/Pending: the pending list and excimer_timer_handle of excimer_timer.c, with the
--     structures as fields by pointer. Timer/Interrupt: excimer_timer_interrupt.
--   Timerlib: the functions of timerlib/timerlib_posix.c that the PHP thread calls, on an
--     interface of the system calls. Timerlib/Started: timerlib_timer_init and
--     timerlib_timer_destroy end; that pthread_cond_wait reports no error is a condition, since
--     the code then keeps a mutex for which the handler thread waits. Timerlib/Handler: the
--     handler thread beside the others, as a step relation; the signals of the kernel are an
--     interface.
--   Timer/Life: the life cycle of timers in excimer_timer.c. Timer/Lives, Timer/Change,
--     Timer/Keeps: its invariant.
--     Timer/Refusal: timers that are not valid.
--   Timer/Ring, Timer/Distinct, Timer/Queue, Timer/Removal, Timer/Fifo, Timer/Notify,
--     Timer/Interleaving: circular lists, the abstract queue and the proofs.
--   Timer/Mutex: excimer_mutex.c, and the handler threads beside the interrupt function one
--     access at a time. Its children are the invariant, the steps, and what holds in every
--     interleaving.
--   Log/Ownership: the references between the objects of a log, its entries and its iterators.
--     Log/Methods: the methods of ExcimerLog that call excimer_log.c or refuse.
--   Profiler/Expiries: from the signals of the kernel to the event count of a sample.
--   Timerlib/Wrappers: the clocks, the signal masks and timerlib/timerlib_pthread_mutex.h.
--   Profiler/Ticks, Profiler/Delivered: the samples from the events to the callback, over the
--     life of a profiler.
--   Log/Strings: the references to strings that recording takes, and excimer_log_destroy.
--   Timerlib/Kqueue: timerlib/timerlib_kqueue.c, on an interface of its system calls; the handler
--     thread takes the events of its queue as a list.
--   Examples: concrete inputs.
--
-- Bounds. An overrun count is an int that is not negative and below INT_MAX, so that the addition
-- of one does not overflow; the kernel's count stays at DELAYTIMER_MAX, a parameter. A zend_long
-- counter is its 64-bit pattern and is added modulo 2^64, a uint32_t index is guarded as in the
-- source. The loops over callers take the size of the frame array as fuel, which is enough because
-- a caller stands before the frame; the interrupt loop takes the length of the queue, and the wait
-- for the handler thread the number of spurious wake-ups. A sum of more than 2^64 events wraps, as
-- in the source.
--
-- Not modelled. Thread-safe builds (ZTS), where excimer_timer_handle uses the handler thread's own
-- excimer_timer_tls: there is one pending list and one mutex. The reference counts of callbacks,
-- and the memory of the allocator; the destruction of a timer among the single steps of the
-- threads; the registration of classes in excimer.c. The floating-point numbers are an interface,
-- and so are the sort of a hash table, the system calls and the signals.
pub mod Prelude
pub mod Run
pub mod Bytes
pub mod Zend
pub mod Log
pub mod Timespec
pub mod Timerlib
pub mod Timer
pub mod Profiler
pub mod TimerObject
pub mod Examples
