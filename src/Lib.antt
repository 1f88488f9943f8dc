-- ===== src/Lib.antt =====
-- A collection of small C++ programs, of which this library models the radix tree, the memory pool
-- with its stack, the Redis clients and the network programs. Paths are from the repository's
-- root.
--
-- MemoryPool: 高性能内存池/MemoryPool.hpp, the class `MemoryPool`. The four pointers of the class are
-- fields of `Pool`; the memory is a function from addresses to slots, and `operator new` is the
-- parameter `os`, a sequence of addresses. `allocate`, `construct`, `destroy`, `deallocate` and
-- `release` (the destructor) are its methods. MemoryPool/Invariant says which slots are handed
-- out, free or not used yet; Allocate and Deallocate show that the methods keep that, Client takes
-- any sequence of calls, Release the destructor, Blocks the number of blocks, Failure `allocate`
-- when `operator new` fails. The fuel of `release` is one more than the number of blocks. Not
-- modelled: the alignment of slots, addresses that wrap.
--
-- StackAlloc: 高性能内存池/StackAlloc.hpp. The template parameter `Alloc` is the record `Allocator` of
-- StackAlloc/Interface, with its laws. Chain ties the nodes in memory to a list, Refines takes
-- each method, Runs any sequence of calls. The fuel of `clear` is any number above the stack's
-- length. OnPool joins the two headers. Benchmark and Program are 高性能内存池/main.cxx:
-- `std::allocator` and `std::vector` are parameters of `benchmark`, records of operations with
-- laws, and the readings of the clock are its input. A call that gets no memory throws
-- `bad_alloc`, which ends the program; whether one gets none is a parameter too. Runs takes calls
-- that get memory. Its loops take the numbers of rounds and elements that are left, so there is no
-- fuel but the one round of `clear` on an empty stack.
--
-- RadixTree: 实现Radix Tree/radix_tree.hpp, radix_tree_node.hpp and radix_tree_iterator.hpp. A node
-- owns its children, so the model is a tree, and a pointer is the node with its ancestors; a
-- change of a node gives a new root. Keys are strings of bytes. Key, Node, Search, Insert, Erase
-- and Iterate hold the code; Spec has the invariant and the list of entries; Map is about
-- `std::map`; Child is about its look-ups; Locations and Locate are about `find_node`, Rebuild and
-- Roots about a change at one node, Count about the size; Entries joins the search by first bytes
-- and the list of entries. NewChild, Append and Prepend take the parts of `insert`, Pointers and
-- Leads the pointers that it returns, Insertion the whole, Lookup takes `find`, Store and
-- Subscript take `operator[]`. Merge, Erasure and Pruning take the parts of `erase`, Removal the
-- whole. Leaves and Starting are about the entries below a node, Matches takes `prefix_match`,
-- Greedy `greedy_match`, Climb and Longest `longest_match`, Walk and Traversal the iterator.
-- Ascending and Increasing are about the order of the entries, Inverse about an insertion and its
-- erasure, Branching and Canonical about the shape of the tree. Reading takes `operator[]` read
-- and `erase` of an iterator. Reference and Nearest are the operations of a sorted list, against
-- which Runs puts any sequence of calls. Runs/Outcomes is about the trees that such sequences
-- make. Program is 实现Radix Tree/RadixTreeExample.cxx, with what it prints as lines; Tests runs its
-- `main`. Recursion is on the tree, so there is no fuel, but for a traversal, which has one step
-- for each entry; `int` lengths and depths are numbers without bound. Allocation does not fail.
-- Iterators that outlive a change of the tree, and the memory of the nodes, are not modelled.
--
-- Redis: Redis for Asynchronous Subscription and Publishing/redis_publisher.cxx, publisher.cxx,
-- redis_subscriber.cxx and subscriber.cxx. hiredis, libevent, semaphores and threads are not in
-- the repository: a class's calls of them are recorded in order, and the parameter `Answers` says
-- what they return, depending on all earlier calls. Publisher and Subscriber hold the methods;
-- Contexts is about the contexts that are got and freed, Commands about the program of
-- publisher.cxx, whose endless loop takes the number of rounds, Callback about the replies, Thread
-- about `connect` beside `event_proc` as steps in any order. Callbacks that only print are not
-- modelled.
--
-- The programs of 网络编程入门: what the system calls return is the input of a model, in order, and
-- their effects are its output; an endless loop follows the list of what it gets, and where that
-- has ended it waits. Sockets has their buffers, the calls by which they start, and what they
-- print. EchoServer: TCPServerDemo/src/server.cxx and TCPServerDemoMultiProcess/src/server.cxx,
-- with whole sessions in EchoServer/Sessions. EchoClient: TCPServerDemo/src/client.cxx and its
-- copies; EchoClient/Exchange and Servers join them with the servers. Epoll: EPOLL/src/server.cxx.
-- MultiThreads: MultiThreads/src/server.cxx, where Select is `select_workproc`, Indexed is
-- `epoll_workproc`, and Pthread takes `accept4` and the starts of threads as steps in any order.
-- Udp: UDP/UDPServer.cxx and UDP/UDPClient.cxx, joined in Udp/Echo; Udp/News is the senders and
-- receivers of a file. Hello: socket/hello_server.cxx and socket/hello_client.cxx. Console:
-- SELECT/SelectDemo.cxx. Signals is `read_childproc`, the handler of SIGCHLD that three of the
-- servers install, beside forks, ends of children and deliveries of the signal, as steps in any
-- order; `waitpid` is a parameter. Terminal output that does not show a message, and addresses,
-- are not modelled.
--
-- Libevent: libevent_quickstart of the Redis programs, its server and its client. libevent is not
-- in the repository: the callbacks take what its calls return, and the calls are recorded.
--
-- Prelude has the names that all parts share. The Examples modules hold concrete runs.
--
-- Not modelled: the files that CMake generated.
pub mod Prelude
pub mod MemoryPool
pub mod StackAlloc
pub mod RadixTree
pub mod Redis
pub mod Libevent
pub mod Sockets
pub mod Signals
pub mod EchoServer
pub mod Hello
pub mod Console
pub mod EchoClient
pub mod Udp
pub mod Epoll
pub mod MultiThreads
