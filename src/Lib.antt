-- ===== src/Lib.antt =====
-- The core of the skynet fork under server/skynet, on which the game services of this repository
-- run, and what holds of it.
--
-- The program. A service is a context with a 32-bit handle and a message queue of its own. Any thread
-- sends to a service by pushing to its queue; a queue that gets a message while it is outside the
-- global queue goes there; worker threads take queues from the global queue, run messages of the
-- service, and give the queue back or let go of it when it is empty. The handle table finds a context
-- by handle or by name. A timer thread moves a wheel of timers on, and each timer that is due becomes
-- a message to its service.
--
-- The files, by the code that they model; each child module proves what its name says.
--   Base      numbers, lists with out-of-range reads, counts: shared by all.
--   Mq        server/skynet/skynet-src/skynet_mq.c. `MessageQueue` is `struct message_queue`, its
--             array a list of `cap` slots; `create`, `pop`, `push`, `overload`, `mq_length` and
--             `expand_queue` are the functions of those names after `skynet_mq_`. `Mq.Global` has
--             the linked list `struct global_queue`, with `next` pointers as a function from
--             pointers; `Mq.Memory` has the functions that touch both, with their assertions as an
--             option; `Mq.Owners` has the histories of their calls.
--   Timer     server/skynet/skynet-src/skynet_timer.c. A `link_list` is the list of its nodes, and
--             the arrays `near` and `t` are one function from slots.
--   Handle    server/skynet/skynet-src/skynet_handle.c. `Storage` is the table, `Names` the sorted
--             array of names; a context is its pointer, and `skynet_context_handle` is an argument.
--   DataBuffer  server/skynet/service-src/databuffer.h, and `dispatch_message` of
--             service_gate.c where packets are read. `messages` is the linked list from `head` to
--             `tail`, each node with its address; the free list of the pool is a list of addresses.
--             `DataBuffer.Frames` has the packets of a stream of bytes without any buffer, and
--             `DataBuffer.Packets` what a peer sends.
--   Gate      server/skynet/service-src/service_gate.c. A connection is a place of the function `conn`;
--             what the gate asks of the sockets and of other services is a list of effects.
--   HashId    server/skynet/service-src/hashid.h. A pointer to a node is its place in the array; the
--             arrays `id` and `hash` are functions.
--   Monitor   server/skynet/skynet-src/skynet_monitor.c.
--   Harbor    server/skynet/skynet-src/skynet_harbor.c: `HARBOR` is an argument.
--   Service   server/skynet/skynet-src/skynet_server.c, with the calls of skynet_handle.c and
--             skynet_harbor.c that it makes. A `Node` has the contexts by their pointers, the handle
--             table and the memory of the message queues; `context_new`, `context_grab`,
--             `context_release`, `context_push` and `context_newsession` are the functions of those
--             names after `skynet_`, and `handle_grab` and `handle_retire` those of skynet_handle.c.
--             `Service.Step` has the histories of references. `Service.Send` is `skynet_send` and
--             what it calls, with the memory of the data; `skynet_malloc` is an argument, a pointer
--             to nothing. `Service.Address` has the addresses and `skynet_sendname`,
--             `Service.Dispatch` has `skynet_context_message_dispatch`; a callback is an argument.
--             `Service.Launch` has the end of `skynet_context_new`, after the module's init function.
--             `Service.Timeout` has `skynet_timeout` and `dispatch_list` of skynet_timer.c.
--   Netpack   server/skynet/lualib-src/lua-netpack.c. `Queue` is `struct queue`, its chains lists;
--             `filter`, `pop`, `clear` and `pack` are the functions of those names after `l`.
--
-- Integers. Counters that wrap are natural numbers with the modulus written out: the time of the wheel
-- and the expiry of a node are modulo 2^32, a handle is modulo 2^24 under its harbor byte. A pointer is a
-- number.
--
-- Fuel. `raise_threshold` has as much fuel as the queue has messages, as the threshold doubles and is
-- positive. `drop_queue` has `cap`, as a ring holds fewer messages than that. `search_loop` has one
-- more than the array has names, as the interval shrinks in each round. `shift_loop` has four rounds,
-- one for each level; `register_loop` has two, as a grown table has a free slot.
-- `dispatch_loop` has one round more than the buffer has bytes, as each round takes a byte at least.
-- `lookup_loop` and `remove_after` have one round more than there are nodes, as no chain has a node
-- twice; `raise_hashcap` has as many rounds as nodes are asked for, since the size doubles from 16
-- where it does not overflow.
-- `push_more` and `split` have the length of the bytes, as each round takes two at least; `pop_all`
-- has the count of the packets.
-- `unread_loop` has two rounds more than the buffer has bytes, as each but the first takes a header.
--
-- Concurrency. Each queue, the global queue, the table and the wheel have a lock of their own, and
-- what is done under a lock is one step, as is an atomic operation on a count. `Mq.Owners.Step` is the
-- relation of these steps: making a queue, a send by any thread, and what a worker does with the queue
-- that it holds. `Mq.Owners.Reach` is its closure. `Service.Step` has the steps on contexts. Some
-- calls are one step here although the source does more than one thing without a lock around it: the
-- first part of `skynet_context_new`, whose handle is written after its registration;
-- `skynet_monitor_trigger`; and `timer_update`, which leaves its lock to dispatch. The locks
-- themselves are not modelled, nor are allocation failures; a slot that was never written reads as a
-- blank message, and no theorem depends on which.
--
-- Not modelled: the commands of skynet_server.c, the modules of services, the text commands of the gate,
-- sockets, the harbor service, the other Lua bindings and process start. The copies of other projects
-- (3rd, sproto, the codecs) are left out too.
pub mod Base
pub mod DataBuffer
pub mod Gate
pub mod Handle
pub mod Harbor
pub mod HashId
pub mod Monitor
pub mod Mq
pub mod Netpack
pub mod Service
pub mod Timer
