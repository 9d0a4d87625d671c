-- ===== src/Lib.antt =====
-- My-Practise, a collection of C++ systems components: a model of the parts that carry its logic.
--
-- The program's parts are independent of each other but for one chain. nanolog is an asynchronous
-- logger: each logging thread formats into a ring of its own, a `LoggerBuffer`; one IO thread drains
-- the rings into a `SwapBuffer` and writes that asynchronously; a caller of `sync` waits until the
-- IO thread has seen everything written. lockfree holds a stack and a queue of linked nodes, whose
-- memory a hazard pointer sanitizer frees. refbase holds counted references, and threadpool a pool
-- of workers over a queue and a semaphore. async-server answers HTTP requests over io_uring. luogu
-- holds single programs for exercises, design_pattern small classes, and rbtree the nodes of a tree.
--
-- Where the parts are modelled:
--   Base                     shared names, Boolean tests, lists, integers, and bytes in memory
--   Nanolog.LoggerBuffer     nanolog/include/Logger.hpp, class LoggerBuffer, and
--                            update_and_allocate_buffer of nanolog/Logger.cpp; the two threads of a
--                            ring are the steps of LoggerBuffer.Threads, each of which reads the
--                            other side's position once
--   Nanolog.Format           nanolog/include/FormatUtil.hpp: count_param_types,
--                            analyze_params_format, marker_to_param_type
--   Nanolog.SwapBuffer       nanolog/include/SwapBuffer.hpp: load_buffer_from, aio_flush and the
--                            tests of the buffer
--   Nanolog.IoThread         nanolog/Logger.cpp: the drain loop and the stages of
--                            IoBackgroundThreadFunction, and sync_internal
--   Nanolog.IoThread.Rings   nanolog/Logger.cpp: the loop over the rings in
--                            IoBackgroundThreadFunction
--   Nanolog.Logger           nanolog/include/Logger.hpp and nanolog/Logger.cpp: the class Logger but
--                            for its IO thread, with the structures of LoggerInfo.hpp and
--                            LoggerConfig.hpp
--   Nanolog.Service          nanolog/include/Service.hpp: requests, promises and the flusher, on a
--                            ring whose calls are parameters
--   Lockfree.Sanitizer       lockfree/Sanitizer.hpp: HazardPointer and HazardSanitizer
--   Lockfree.Stack           lockfree/Concurrent.hpp: Push and Pop of LockFreeListStack, one access
--                            to shared memory a step
--   Lockfree.Stack.Lifetime, Lockfree.Queue.Lifetime
--                            lockfree/Concurrent.hpp: the constructors and the destructors
--   Lockfree.Queue           lockfree/Concurrent.hpp: Push and Pop of LockFreeListQueue, likewise
--   Lockfree.Stack.Threads, Lockfree.Queue.Threads
--                            lockfree/Concurrent.hpp: the runs of many threads on one container, in
--                            which `new` gives no address twice and, for the queue, no node is
--                            delayed by the sanitizer; Lockfree.Calls has what their callers see
--   Refbase                  refbase/refbase.hpp and refbase/refbase.cpp: RefBase and sptr
--   Threadpool               threadpool/ThreadPool.cpp: ThreadPoolImpl, one semaphore operation,
--                            critical section or read of `running` a step
--   Threadpool.Task          threadpool/TaskWrapper.hpp and threadpool/ThreadPool.hpp: emplace, the
--                            wrapper of a call, and the running of the tasks left in the queue
--   Threadpool.Instance      threadpool/ThreadPool.cpp: GetInstance, one access of the instance or of
--                            the mutex a step
--   Server                   async-server/server/EventLoop.cpp: from the bytes of a request to the
--                            handler that answers it
--   Server.Loop              async-server/server/EventLoop.cpp and io_uring_handle.cpp: the effects
--                            of one turn of EventLoop::loop
--   Server.Response          async-server/server/EventLoop.cpp: the texts of the responses, and the
--                            path of a file
--   Server.Setup             async-server/main.cpp, server/TcpServer.cpp, server/IPV4.cpp and their
--                            headers in async-server/include
--   Luogu.Matching           luogu/P3386.cpp and luogu/B3605.cpp: bipartite matching
--   Luogu.Closure            luogu/B3611.cpp: the transitive closure
--   Luogu.Powers             luogu/P3811.cpp: fastpower and linear
--   Luogu.Edges              luogu/B3613.cpp: adjacency lists from sorted edges
--   Luogu.Prefix             luogu/B3612.cpp: sums over ranges
--   Luogu.Masks              luogu/B3633.cpp: sets as bits
--   Luogu.Choices            luogu/B3622.cpp: all choices of two letters
--   Luogu.Octal              luogu/B3617.cpp: from octal to hexadecimal
--   Luogu.Dijkstra           luogu/B3602.cpp: shortest paths with an ordered queue
--   Luogu.Products           luogu/B3645.cpp: products over ranges modulo a prime
--   Rbtree                   rbtree/rbtree.hpp: nodes, header, leftMost and rightMost
--   Patterns                 design_pattern: Proxy, Decorator and Observer
--
-- How state and operations correspond to the code: a class is a record with its members, a member
-- function a function of the record, or a step of a relation where threads meet; pointers are
-- addresses or offsets, 0 is the null pointer; counters wrap at their width, which is written out. A
-- failed assert is the absence of a result, and what the language leaves undefined is a result of its
-- own. Memory accesses are sequentially consistent. Where many threads run, an address that was given
-- out is never given out again, and the queue's nodes are never delayed: those results hold of the
-- compare-exchanges alone, with or without hazard pointers, and say nothing of runs that reuse memory
-- or, for the queue, delay a node. What a release frees is modelled and proved for the sanitizer itself.
--
-- Bounds and fuel: the rounds of update_and_allocate_buffer are the list of the positions that they
-- read; load_buffer_from takes a number of rounds that covers its bytes, drain_loop is given its
-- rounds, of which two serve a message that is loaded whole. The search of luogu/P3386.cpp has one
-- call for each right vertex and one more, since each call marks one; fastpower has one round more
-- than its exponent, which every round halves; leftMost and rightMost have the size of the tree, and
-- the destructors of the stack and the queue one round for each value and one more.
-- The search of luogu/B3602.cpp has one round for each edge and two more, since each edge puts at
-- most one entry into the queue. The loop over the rings takes its fuel as an argument. Everything
-- else is structural recursion or a relation.
--
-- Not modelled: the vendored liburing, of which calls are parameters; the other exercises of luogu,
-- and what the modelled ones read; the adapter and the singletons of design_pattern, which have no
-- state; the moves of list nodes, which nothing calls; calls in the pool that throw or use the pool;
-- the reuse of freed memory by running threads; real time, weak memory order, and the contents of log messages.
pub mod Base
pub mod Nanolog
pub mod Lockfree
pub mod Refbase
pub mod Threadpool
pub mod Server
pub mod Luogu
pub mod Rbtree
pub mod Patterns
