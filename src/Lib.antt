-- ===== src/Lib.antt =====
-- gostalkd, a work queue server that speaks the beanstalkd protocol: its data structures, its jobs
-- and tubes, its write-ahead log, and the handling of its commands.
--
-- The parts of the program, and how they interact. A connection (model/conn.go) sends command
-- lines. net/serv.go finds the end of a line, net/prot.go which command it is, and a handler of
-- net/prot.go reads the arguments by utils/str.go and utils/tube.go. The handlers move jobs
-- (core/job.go) between the ready heap and the delay heap of a tube (core/tube.go,
-- structure/heap.go), the tube's list of buried jobs and the connection's list of reserved jobs
-- (doubly linked lists, core/job.go). processQueue gives ready jobs to the connections that wait on
-- a tube (structure/ms.go). Jobs that change are written to a log (core/wal.go, core/file.go), which
-- reserves space for what it must write later.
--
-- The files, each with children for its parts and for what is proved of it:
--   Prelude         the libraries' names, bytes, machine integers, lists, code that may panic
--   Structure.Heap  structure/heap.go with container/heap: a queue is a list of items; push, pop,
--                   remove, take_at are Push, Pop, Remove, Take; `none` is a panic
--   Structure.Ms    structure/ms.go: append, delete, clear, take_next, remove, contains, with the
--                   callbacks as functions on a state
--   Utils.Str       utils/str.go: read_int is ReadInt, and so on; `panics` is a run-time panic
--   Utils.Tube      utils/tube.go, and ReadTubeName of utils/str.go
--   Core.Links      the job lists of core/job.go: Prev and Next as functions on addresses
--   Core.Job        the rest of core/job.go but BuryJob, which is Core.Bury
--   Core.Tube       core/tube.go
--   Core.Wal        core/wal.go, core/file.go and the lock files of core/: Files are the files
--                   and their reference counts,
--                   Space the reservations, Record the writing and the compaction, Lock the lock
--                   of the directory, Scan the files in it, Decode, Replay and Start the reading at
--                   the start, Quiet what all this leaves alone
--   Machine         the memory of the server: model/*.go and the package variables, with the
--                   actions on it. Pointers are addresses; the action `none` is a panic.
--                   Frame says what an action leaves alone (Quiet), with a ruleset of one rule for
--                   each action; Within relates the memory before an action and after it
--   Net.Conn        net/conn.go, and the bookkeeping of connections in net/prot.go
--   Net.Watch       NewConn of net/conn.go, and the callbacks of the list of watched tubes
--   Net.Close       connTimeout and connClose of net/conn.go, and the queue of requests epollQ
--   Net.Reply       the replies of net/prot.go
--   Net.Queue       processQueue, enqueueJob and the removals of net/prot.go; Net.Kick kicks jobs
--   Net.Stats       the texts of the statistics of net/prot.go
--   Net.Commands    dispatchCmd (Dispatch) and the handlers of all commands: Reserve, Return (delete,
--                   release and bury), Kick, Tubes (use, watch, ignore, pause-tube), Lists (the
--                   lists and the statistics), Put (put, with the reading of its body)
--   Net.Io          connProcessIO of net/serv.go, a function for each state of a connection
--   Net.Serve       hConn and hAccept of net/serv.go; Rounds is about the loop of hConn
--   Net.Sockets     sockWant and sockNext of net/linux.go, net/darwin.go and net/windows.go, as
--                   functions of what the system answers
--   Net.Start       NewServer, makeServerListener, Start and SrvAcquireWal of net/serv.go, and the
--                   options of model/srv.go; Start as its first rounds
--   Net.Tick        protTick and protReplay of net/prot.go
--   Net.Protocol    whichCmd of net/prot.go and scanLineEnd of net/serv.go
--   Net.Quiet       what the functions of net/ and the handlers leave of the lines of connections and
--                   of the numbers of tubes
--   Net.Tallied     the numbers of users and watchers of the tubes, over all commands
--   Setup           OptParse of utils/options.go, and main of main.go
--
-- Machine integers. An int64 or uint64 is its bit pattern, a number below 2 ^ 64, and a uint32 one
-- below 2 ^ 32; sums and differences are taken modulo these, and the order of int64 flips the sign
-- bit. An index of a slice is a plain number.
--
-- Fuel. The loops up and down of container/heap have as much fuel as the queue has items, plus one;
-- each round of up goes to a parent and each round of down to a child. Clear has one round more
-- than the list has items, since each round takes one away. processQueue has one round more than
-- jobs stand in the ready heaps, since each round takes one out; the loops of protTick likewise for
-- the delay heaps and the connections. hConn has one round more than Cmd has bytes, since each round
-- takes a line off, and FileRead one more than the file has bytes, since a record has bytes. The
-- loops over epollQ have two rounds more than twice the connections. The loops of the log and of the
-- lists of jobs have more rounds than there are files or addresses. Where a loop would need more
-- rounds it counts as a panic; serve_loop and read_loop, the loops of hConn and FileRead, take what is
-- done then as an argument. That the rounds of the log and of the lists of jobs are enough is not
-- shown.
--
-- Not modelled: the effects of the system calls on sockets and event queues, and the files and
-- addresses behind a listener; the reading of flags, signals and users
-- (signal.go, utils/su_unix.go, utils/log.go and their like), which only call the operating system; and
-- the log messages. strconv.ParseInt is a parameter of walScanDir. The clock, the success of
-- opening and of writing a log file, what sockets give and take, the minimum of two floating-point
-- numbers, and what the process is told of its machine are answers that the memory holds beforehand.
-- The memory that protTick leaves when a panic is caught there is not modelled.
pub mod Prelude
pub mod Structure
pub mod Utils
pub mod Core
pub mod Machine
pub mod Net
pub mod Setup
