-- ===== src/Lib.antt =====
-- Verification of jepsen-in-cpp, a port of the Jepsen test runner to C++.
--
-- A test gives the runner a generator, a value that yields operations, and clients that execute them.
-- `Runner::runCases` asks the generator for the next operation, hands it to the worker of a free
-- thread, takes the completed operations back, and tells the generator of both. The files, with
-- the code that they model (paths from the root of the repository):
--   Operation: src/jepsen/Operation.h and Operation.cpp, include/constant.h. Text has `toString`,
--     and Printing the text that it is compared with
--   Context: src/jepsen/Context.h and Context.cpp, `onThreadsContext` of Generator.cpp. Processes is
--     about the processes of the threads, Ready and Staffed about the processes that may be drawn
--   Generator: src/jepsen/generator. Types has the classes, Copy `copyOne`, Op `op`, Update
--     `update`, Factory and Build the functions that make generators. Like, Frame, Fits, Serve,
--     Choose, Ready, Confined, Sequence, Best, Soonest, Steady, Parts, Returning, Totality,
--     Leaving, Lasting, Timing and Exhaustion hold the proofs
--   Worker: src/jepsen/Worker.h and Worker.cpp over the interface of Client.h. Session is about the
--     clients that a worker makes, Nemesis about the worker of the nemesis of Nemesis.h that does
--     nothing
--   Runner: the loop of `runCases` in src/jepsen/Runner.cpp. Start has the state in which the loop
--     begins, Hiring makes the workers of the clients, Steps the steps of the loop and of the workers, Working how the thread of a worker
--     makes such steps. Load, Balance, Invariant, Safety, Conservation, Outgrown and Retired hold
--     the proofs, Turns and History those on the history, Queues, Progress and Liveness those that
--     the loop goes on. Remotes and Setup have the constructor of `Runner` and its setters, with
--     src/jepsen/OS.cpp and Database.cpp. Lifecycle has `Runner::run` and the setup and teardown
--     around the loop, Interleaving the turns of their threads, Order the proofs
--   Ssh: src/jepsen/control. Library has what is asked of libssh2 and of the sockets, and
--     `waitsocket` of SSHConfig.h, Channel SSHChannel.h and SSHChannel.cpp, Client SSHClient.h and
--     SSHClient.cpp, Remote SSHRemote.h and SSHRemote.cpp, Construction the constructor and the
--     copies of a remote. Protocol has the order in which libssh2 is to be called; Sessions,
--     Channels, Lifetime, Notes, Output, Loops and Progress hold the proofs
--   Base64: src/jepsen/utils/base64.cpp. Sextets has the code of the standard, Roundtrip the proofs
--   Control: src/jepsen/Control.h and Control.cpp, which send commands over a remote and name files
--     by base64. Log has a remote that writes its commands down, Words the words of a command; Install,
--     Directory and Daemon hold the proofs
--   Prelude: numbers, lists, texts and a monad for code that can go wrong
--   Examples: concrete inputs
--
-- How the code is read:
--   * `int` and `long` are exact integers, their overflow being undefined, and `dt` and `idx`, which
--     are not negative, are naturals. A null pointer that is followed, a remainder by zero, a read
--     out of range and a missing key are `fault`.
--   * `rand`, the random device, the clock and the clients are parameters (`World`, `Client`). A
--     function generator is a function of the context and the outside world.
--   * A generator is a tree. `op` returns what it yields and also `self`, the generator as the call
--     leaves it, since `TimeLimit` and `Stagger` write to their fields. `Mix::copyOne` hands out its
--     own elements, and `share` carries what is written to them back to the original. No
--     generator stands at two places of the one that the runner is given.
--   * A hash map is a list in the order in which it is walked, and the theorems hold for every order.
--   * `op` has fuel, as a list skips exhausted elements by calling itself. Out of fuel is an outcome
--     of its own.
--   * The worker threads are steps that happen at any time between those of the loop: a worker takes
--     the first operation of its queue and puts it, changed by its client, into the queue of
--     completions. A client may change all of an operation but its process. The queue of
--     completions gives out its elements in any order, and a poll may come back with none.
--   * The loops around libssh2 have fuel, for calls that are to be repeated, and so has the search for
--     an unused name. `exit` is an outcome of its own. The calls of libssh2 that make and free
--     something are also noted in a log, which the code does not have.
--   * A parallel `for_each` and `std::async` are threads whose calls interleave in any order, and the
--     next phase begins when all of them have ended.
--   * A text of the program is a text of ASCII characters where its bytes are used, and a real number
--     stands for itself by its text. `boost::format` is given the texts of its arguments.
--   * Assertions are on: one of base64.cpp that fails is an outcome like its exceptions.
--   * What is only logged is left out: the problems that `Validate::op` finds, and the history.
--
-- Not modelled: the interfaces of checkers and of other systems and
-- databases, which have no behaviour of their own; the clock and the names of threads, which are calls
-- of the system; the moves of an operation, which leave the other one as jsoncpp does; the tests.
pub mod Prelude
pub mod Operation
pub mod Context
pub mod Generator
pub mod Worker
pub mod Runner
pub mod Ssh
pub mod Base64
pub mod Control
pub mod Examples
