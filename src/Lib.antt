-- ===== src/Lib.antt =====
-- The distributed queue system: a main server keeps a queue of jobs and a history of them;
-- clients submit jobs and ask for their states; execution servers ask for jobs, run them, and
-- report. The programs are main_server.c, client.c and exec_server.c, and they talk by the
-- messages of PROTO_DIST_QUEUE.h, which the functions of PROTO_DIST_QUEUE.c send and receive.
--
-- - Base, Base/Lists: the names, list functions and lemmas that the other files share; Boolean
--   tests on numbers.
-- - Text, Text/Decimal, Text/Words: the C library's functions on text that the programs call:
--   atoi, `%d`, strcmp, scanf's `%s`, getline; what atoi reads of a printed number, and the
--   words of the input.
-- - Startup: main up to its loop in client.c, exec_server.c and main_server.c, with
--   socketCreate_connect and socketCreate.
-- - Job: `Job_t` of main_server.h, and the heap that the queue's pointers lead to.
-- - Proto: the constants and enumerations of PROTO_DIST_QUEUE.h. Proto/Sizeof: the sizes of its
--   structs. Proto/Memory: a message as memory, the byte orders, strncpy. Proto/Getters and
--   Proto/Setters: one function for each get and set function. Proto/RoundTrip: what the
--   getters read of what the setters wrote.
-- - Transport: sendMsg and recvMsg of PROTO_DIST_QUEUE.c. Transport/Send and Transport/Receive:
--   what they do in whatever pieces the bytes go; Transport/Limits: sizes that do not fit;
--   Transport/Returns: the rounds in which they end, on connections that are cut off too.
-- - Queue: `Queue_t`, QueueInit, putJob, removeJob, and the section of sendJob that takes a
--   job, of main_server.c. Queue/Fifo: the bounded queue that it stands for. Queue/Invariant,
--   Queue/Refine, Queue/Steps, Queue/Remove, Queue/Wrap: the proofs on it.
-- - History: `JobHistory_t`, the section of newJob that gives an id, findJob and changeStateJob
--   of main_server.c. History/Find, History/Newest, History/Change: the proofs on it.
-- - Server: `MainServer_t` and the other sections of main_server.c. Server/Submit: newJob,
--   submitNoInter and submitInter. Server/Query: jobState and queueState. Server/Unsubmit:
--   unsubmit. Server/Dispatch: sendJob, checkServerStatus and putJobBack; Server/Dispatch/Back
--   and Turned: a job that is put back. Server/Attend: the switches of attendClient and
--   attendExecServ, and what each handler leaves. Server/Reply: how a handler ends, and what it
--   is given. Server/Owned, Server/Invariant and the Laws files: the proofs. Server/Relay: a
--   job's way through the server. Server/Threads: the sections of all handlers as steps of
--   threads, one for each connection; Server/Threads/Owns, Moves, Safe, Local, Runs and
--   Interleave: who owns a job's pointer; Server/Threads/Conserved: where the jobs are;
--   Server/Threads/Race: a step that comes too late. Server/Connections: the loops of
--   attendClient, attendExecServ, threadNewClients and threadNewExecServ. Server/Shutdown:
--   MainServerDestroy and QueueDestroy. Server/Console: the loop of main, printHistoryJobs and
--   printQueueJobs; Server/Console/Printed: the tables; Server/Console/Rounds: the loop.
-- - ExecServer: jobRequest, exec_server_protocol, execJob and fatherJobRoutine of
--   exec_server.c. ExecServer/Arguments: the loop of consumeJob; ExecServer/Words: what it
--   computes. ExecServer/Protocol and ExecServer/Reports: the protocol with the main server.
--   ExecServer/Main: the loop of main. ExecServer/Child: consumeJob, setFDsNoIter, setFDsIter
--   and socketPortConnect; ExecServer/Child/Delivery and Interactive: from the client's line to
--   the program that runs; ExecServer/Child/Logs: the names of the files for the output;
--   ExecServer/Child/Failures: a child that runs no program, or runs it elsewhere.
--   ExecServer/Ends: the report that ends a job; ExecServer/Life: from a job's arrival to what
--   a client is shown of its end.
-- - Client: the requests of client.c, and what client_protocol shows. Client/EndToEnd: a
--   request, its service and what is shown; Client/Described: what a job's state is shown as;
--   Client/Withdrawal: unsubmit, and what is shown after it. Client/Commands: the loop of main,
--   getArgsSubmit and getArgsSubmitInt; Client/Rounds: its rounds; Client/Session: a session
--   with the main server. Client/Interaction: client_accept and interaction_1.
-- - Journey: a job that is submitted, and execution servers that ask for it: all three programs
--   together.
--
-- A queue, the history and a server are records, and an operation is a function to the new
-- record. Where it waits on a condition variable, its result says so; where it reads a dangling
-- pointer, leaves an array or fails an assertion, its result is a fault. The queue's pointers
-- are addresses in the heap of jobs; a history slot owns its record and holds it. Each section
-- that a mutex guards is one definition, and a handler composes its sections in the source's
-- order, as it does when no other thread comes between them; in Server/Threads the sections of
-- different threads come in any order.
--
-- Bounds: `put_idx`, `get_idx`, `history_putidx`, `queue2put` and `queue2get` wrap at 2 ^ 32,
-- ids at 2 ^ 16, and `size_t` at 2 ^ 64. Theorems on stored jobs ask that the counters are
-- below their last value. A message is 525 bytes long, on a little-endian host. All loops are
-- structural recursions: on the number of rounds left, where the source's condition gives it,
-- or on the list of what the system calls report.
--
-- What send, recv, read, write, select, accept, pthread_create, fork, wait, execvp, dup2, open,
-- gethostbyname, gethostbyaddr, connect, bind, time and malloc give is an argument of the
-- definitions that use it, as are the bytes of the standard input and of the working directory.
-- The functions of Text are written from the C standard; the input holds no byte 0. In
-- Server/Connections the other threads are a function for each round, from the server that it
-- finds to the one that it leaves, and in Server/Console each round finds a server of its own.
-- When an ACK arrives at sendJob is the peer's to say. In Journey the peer is exec_server.c,
-- whose sendAck sleeps for 6 seconds where checkServerStatus waits for 5; the theorems on a job
-- that is sent are about a peer that answers in time, as exec_server.c would without that
-- sleep.
--
-- Not modelled: the calls by which getArgsSubmitInt makes its socket and finds its address,
-- whose results are arguments; the set-up of mutexes, condition variables and thread
-- attributes, which is taken to succeed; threads that go on while MainServerDestroy runs; and
-- the wording of what is printed. Messages on the terminal about errors are left out.
pub mod Base
pub mod Text
pub mod Job
pub mod Proto
pub mod Transport
pub mod Startup
pub mod Queue
pub mod History
pub mod Server
pub mod ExecServer
pub mod Client
pub mod Journey
