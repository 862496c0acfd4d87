-- ===== src/Lib.antt =====
-- The C libraries of the messaging server: the chat room table, the send manager of the client SDK, the links of the
-- message queue with its users, nodes and subscriptions, and the containers and the timer that they stand on.
--
-- A listener keeps a chat table (src/clang/lib/chat): rooms, which have groups, which have members; sessions, which
-- know the rooms they are in and the commands they subscribe to; and the connection that each session has at present.
-- A broadcast traverses a group of a room and sends to the connection of each member. A client (src/clang/lib/sdk)
-- numbers its messages, keeps them in a send manager until they are answered or their time is over, and reports their
-- fate by a callback. The message queue between the servers (src/clang/lib/rtmq) cuts messages out of the bytes that
-- a link receives and hands them to its handlers: they let the link in by a name and a password, note which of the
-- receive services each node is connected to, note which nodes subscribe to which messages, and put other messages
-- into the queues of the workers. Publishing sends a message to one node of each group that subscribed: it is
-- distributed to a receive service that the node is connected to, and handed to a link of the node there. Queues are
-- the lists of src/clang/lib/core/list.c, maps by id the balanced trees of avl_tree.c, groups of nodes the vectors of
-- vector.c; threads hand pointers to each other in the rings of ring.c, and timer.c keeps timed tasks in a heap.
--
-- Files:
--   Common      shared names; tests on numbers, lists, keys
--   Table       the keyed tables that stand for hash tables and trees: lookup, insert, update, delete, and their laws
--   Chat        the types of src/clang/incl/chat/chat.h, the counters of src/clang/incl/atomic.h
--   Chat/Rooms  src/clang/lib/chat/chat_tab.c; functions that begin with _ there end in _raw here
--               (Valid: the invariant of a room; Enter, Leave: members coming and going)
--   Chat/Members    the rooms as a relation between groups and sessions
--   Chat/Sessions   src/clang/lib/chat/chat.c (Valid: the invariant of the table; Join, Leave, Delete, Delivery,
--               Subscribe, Connections, Clean: one call or a family of calls each)
--   Chat/Requests   sequences of calls, with the slots of the table of sessions that stay locked
--   Sdk         src/clang/lib/sdk/sdk_comm.c and sdk_async_send of sdk.c (Traverse, Expire: sdk_send_mgr_trav;
--               Life: the handlers, where a table is sound if no item in it was freed; Submit: sdk_async_send)
--   Rtmq/NodeMap            the node-to-server map of src/clang/lib/rtmq/server/rtmq_comm.c (Counts: its arrays;
--               Valid: its invariant, removal and choice; Linking: addition)
--   Rtmq/Wire               the header of a message, src/clang/incl/rtmq/rtmq_mesg.h
--   Rtmq/Recv               rtmq_rsvr_recv_proc, rtmq_rsvr_data_proc (data_proc), rtmq_rsvr_switch_recv_buff of
--               src/clang/lib/rtmq/server/rtmq_rsvr.c (Split: one message; Consume: the stream as a whole, the
--               specification; Stream: any cuts of it; Bounds: the buffer)
--   Rtmq/Send               src/clang/lib/core/iovec.c, rtmq_rsvr_wiov_add and rtmq_rsvr_trav_send of rtmq_rsvr.c
--               (trav_send_link, for one link; Adjust: the entries after a write; Flow: one write; Drain: sequences)
--   Rtmq/Auth               the users, src/clang/lib/rtmq/server/rtmq_recv.c (Known: the table and the check)
--   Rtmq/Subs               rtmq_sub_add, rtmq_sub_del of rtmq_comm.c, rtmq_publish of rtmq_recv.c (Place, Spine: where
--               a group stands in the tree; Found: the invariant of the lists; Add, Del, Publish)
--   Rtmq/Link               the handlers of rtmq_rsvr.c (Guard: links that are not let in)
--   Rtmq/Conns              how rtmq_rsvr.c closes links, with the counts of src/clang/lib/core/mref.c (Close: one link; Sweep: links that
--               time out, or all)
--   Rtmq/Dist               rtmq_dsvr_dist_data_hdl of src/clang/lib/rtmq/server/rtmq_dist.c, rtmq_rsvr_dist_data of
--               rtmq_rsvr.c (Queues, Route, Dispatch: from the publisher to a receive service; Peers, Deliver: from there
--               to a link)
--   Rtmq/Proxy              what a client sends first, src/clang/lib/rtmq/proxy/rtmq_proxy_tsvr.c (Fields: the bytes of
--               its requests; Connect: the server at the other end)
--   Rtmq/Compare            the comparisons of the trees of src/clang/lib/rtmq/server
--   Containers/Avl          src/clang/lib/core/avl_tree.c (Balance, Lower: heights; Dict: the specification, a list in
--               order of the keys; Contents, Refine, Remove, Correct: the operations against it; Depth: how deep a tree
--               is; Client: sequences of calls)
--   Containers/Vector       src/clang/lib/core/vector.c (Take: removal)
--   Containers/Ring         src/clang/lib/core/ring.c (Slots: counters and slots; Queue: pushes and pops; Creat:
--               the size)
--   Timer       src/clang/lib/core/timer.c (Sift, Sink: its loops; Heap: start and pop; Stop; Routine: the loop that runs
--               the tasks)
--   Containers/LinkedList   src/clang/lib/core/list.c (Chain: well-formed lists; Ends: pushes and pops; Search: the rest)
--
-- How the code is modelled. A C struct is a record, a table its list of entries by key; a write through a pointer
-- that a table gave is an update under the key. A list is the chain of its nodes with their addresses, so that the
-- tail can point at a node that is gone. In the balanced trees a node stands for the subtree below it, and the
-- comparison is an argument, by the sign that it returns; the theorems ask that it orders the keys, and that of the
-- node maps does. The tables that stand for trees and hash tables hold what was put in. The comparison of the answers
-- that are registered with the SDK is not an order, and that of the lists in the server's table of subscriptions
-- (rtmq_sub_tab_cmp_cb) is never negative: the table of answers is one of up to two, and a slot of the table of
-- subscriptions takes two lists, while a third one is `none`, since the tree of the slot need not find it or the
-- others again. The theorems on subscriptions say how many lists the slots have. Numbers are natural, counters wrap
-- at 2 ^ 64 and 2 ^ 32, and a group keeps its id in 16 bits. The loops by goto take their rounds as fuel: two rounds
-- for a room, a group or a session's room, one for the connection of a session. The loop over the receive buffer
-- takes one for each byte and one more, the loops over the heap one for each task and one more. The theorems say that
-- these are enough. A read takes no more bytes than there is room for in the buffer. The time is an argument, in the
-- loop of the timer a function of how often it was asked for, as are the answers of `read` and what the handlers of a
-- message do; callbacks are recorded, and what a failed assertion, a call through NULL or a write through a dangling
-- pointer would do is `none` or an outcome of its own. What `realloc`, `rand` and `Random` give is an argument or a
-- field too, and how many bytes a socket takes. A string in a message is its bytes up to a zero. The handlers are
-- composed with the receive buffer as its argument `handle`. The loop that hands a ring out takes more rounds than
-- there are messages. The `goto`s of a subscription take two rounds each, for the list and for the group.
--
-- Not modelled. Allocations succeed. Each call is one step, on a ring too, and but for the timer's loop the time
-- stands still in it. Locks are left out but where a call returns with one held: which calls wait for a slot of the
-- chat's table of sessions is part of the sequences of calls, and rtmq_sub_del says whether it kept the lock of the
-- list's slot. The slots of hash tables and their red-black trees, and so the order of a traversal among them.
-- Destructors, but where a link is closed. The callbacks of a timed task are reduced to the time that they take, and
-- an item of the SDK has its callback. The ids that are left when the sweep of empty rooms ends early are not given
-- back. A block that `realloc` makes smaller than the entries of a vector is `none`. Lengths that go to an int are
-- taken to be below 2 ^ 31. Lists of 2 ^ 31 nodes and more, where the code's counter overflows, are taken to wrap;
-- arrays, heaps and times that overflow an int or a time_t are left out. How the receive services of the message
-- queue accept links and go round them, the workers, the receiving and the sending side of its clients, the access
-- layer, the SDK's socket threads, the executables and the Go services are not part of this development.
pub mod Common
pub mod Table
pub mod Containers
pub mod Chat
pub mod Sdk
pub mod Rtmq
pub mod Timer
