-- ===== src/Lib.antt =====
-- cpp_sk: an actor runtime after skynet, in C++. A service is a context with a handle and a
-- queue of messages; workers take the queues of services with messages from a global queue and
-- hand each message to the service's callback; a timer thread and a socket thread push messages
-- of their own.
--
-- * Base holds what the modules share: names of the libraries, tests on numbers, lists, and the
--   laws of masks.
-- * Message models the messages (cpp_sk.h, sk_socket.h).
-- * Handle, Harbor and HandleStorage model handle_t, harbor_t and handle_storage_t (cpp_sk.h,
--   cpp_sk.cpp).
-- * MessageQueue and GlobalQueue model message_queue and global_queue (cpp_sk.h, cpp_sk.cpp).
-- * Timer models the timing wheel (cpp_sk.h, cpp_sk.cpp).
-- * World models the contexts, context_push, the log and the sessions (cpp_sk.h, cpp_sk.cpp);
--   Monitor, Dispatch, Launch and TimerEvents what the monitor, a worker, context_t::create and
--   the timer do to it (cpp_sk.cpp).
-- * Socket and SocketServer model the slots and the operations of the socket server
--   (sk_socket.h, sk_socket.cpp), and SocketServer.Connection one connection as a step relation
--   over them, in which a failed write, a send behind a close and the loss of the slot to new_fd
--   are steps that its state notes.
-- * Scheduler models the threads as a step relation over the world (cpp_sk.cpp): the steps of
--   any number of workers, of the threads that push messages and of those that launch services,
--   in any order. A callback's effects are steps of their own.
-- * Threads models monitor, the rounds of the timer's and the monitor's thread, and what start
--   launches (cpp_sk.h, cpp_sk.cpp).
-- * Config, Modules and Main model the configuration, the map of the modules, and main with
--   start (cpp_sk.h, cpp_sk.cpp, main.cpp), Logger the service that writes the log (logger.h).
-- * Algo models split and split_one, Spinlock spinlock_mutex, and Guards shared_mutex_type and
--   str_malloc (utils.h); FilterArgs _filter_args (cpp_sk.cpp).
-- * Service models module_mid_t, the base class of the services (cpp_sk.h); Service.Reading
--   takes the messages of a connection from the queue that SocketServer.Reads, the read loop
--   (sk_socket.cpp), puts them in, and Service.Hangup follows a failed read to the close of the
--   socket.
-- * Rpc models the requests, the frame and the dispatch of remote calls (cpp_rpc.h).
-- * Pingpong models the sample services pingpong_server and pingpong_client (main.cpp).
--
-- Numbers: a uint32_t is a natural number below 2^32 with its wrap-around written out, an int is
-- its 32-bit pattern. A method that runs under a lock is one step. Where C++ leaves the
-- behaviour undefined (an index out of range, a null pointer, a failed assert) the result is
-- none. Code that the source only calls is a parameter or an argument: callbacks and init of
-- services, texts that std::format makes, outcomes of asio. A coroutine is one function for each
-- piece between two co_await. Not modelled: the sleeps and joins of the threads; of utils.h
-- mutex_type, whose guard does not compile, defer_t and safe_free, which nothing uses, and
-- string_hash, which wraps the library's hash. Loops take fuel: two rounds for the outer loop of
-- handle_register and for timer_execute, four for timer_shift, one for each message for the
-- overload loop, one more than the messages of the queue for its release, and two more than the
-- bytes of a text for split.
pub mod Base
pub mod Message
pub mod Handle
pub mod HandleStorage
pub mod MessageQueue
pub mod GlobalQueue
pub mod Timer
pub mod World
pub mod Monitor
pub mod Dispatch
pub mod Launch
pub mod Scheduler
pub mod TimerEvents
pub mod Socket
pub mod SocketServer
pub mod Service
pub mod Rpc
pub mod Algo
pub mod Threads
pub mod Pingpong
pub mod Modules
pub mod Config
pub mod Main
pub mod Logger
pub mod FilterArgs
pub mod Spinlock
pub mod Guards
pub mod Harbor
