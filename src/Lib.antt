-- ===== src/Lib.antt =====
-- LatticeFlow: lattices, a replicated key-value store and its clients, push and pull elements, flow
-- operators, an event loop with timers, and what threads share. All paths are from the root of the
-- repository.
--
-- The parts, and the files that model them:
--
-- Lattices: src/lattices. A lattice is a class with `get` and `join`. Lattices.Lattice has the
-- interface of lattice.h as a record, with the operators `==`, `!=` and `<=` that it derives, and as
-- a second record, IsLattice, the laws of a join semilattice. Each other module has one class: its
-- state, its join and its own operations (insert of SetUnionLattice, put and get of MapLattice,
-- timestamp and value of TimestampLattice, the friend operators of the numeric and Boolean ones).
-- `join` returns what the object holds after the call. The standard containers are modelled in Std,
-- as lists of distinct elements or of entries with distinct keys; what iteration order they have does
-- not show through `==` and lookups. Element types come with their `==` or `<` as an instance
-- argument, in Base.Classes.
--
-- Key-value server: src/key_value_stores/server.cc. Kvs.Server has the state of one thread (State)
-- and its operations as functions on it: process_request with the loop over a put (put_pairs), the
-- transaction timestamps (begin_timestamp), the gossip (send_gossip, receive_gossip) and what threads
-- subscribe to. The database is the composition of the lattices that the code composes. Kvs.Message
-- has the requests and responses of message.proto. `none` is an exception that the thread does not
-- catch. The set of changed keys is a std::set; its order, in which a gossip is filled, is not kept.
-- The narrowing of an int64 timestamp to int is written out; std::stoi fails above the largest int;
-- the counters of a thread are natural numbers. Kvs.Cluster has all the threads of a server as a step
-- relation, from the barrier on: a thread subscribes to the others, and only then processes requests,
-- or receives a gossip from its inbox, in any order. What it publishes for another thread goes into
-- the inbox of that thread if it has subscribed and the sockets take it, which is left open;
-- otherwise it is dropped, and `lost` has it, which no thread reads. The barrier itself is
-- Concurrency.Barrier. Kvs.Worker has what worker_routine composes around a thread after the barrier:
-- the elements from the socket of the requests to that of the responses, the two event handlers and
-- the driver that runs them. The gossip in its subscriber socket is the data that the pointers point
-- to. Kvs.Worker.Wire has the other end, `send_proto` and `recv_proto` of a client, and Kvs.System
-- all threads on their sockets.
--
-- Clients: src/key_value_stores/client.cc and util.cc in Kvs.Client, with the commands as lines of
-- text, and ruc_client.cc, rc_client.cc and ici_client.cc in Kvs.Client.ReadUncommitted,
-- ReadCommitted and ItemCut. What answers the requests of a client is a parameter
-- (Kvs.Client.Session), which may change its state and may never answer (`none`); Kvs.Client.Commit
-- takes a thread of the server for it. The model of `repl` ends with its input.
--
-- Push and pull elements: src/pushpull. An element that is pushed into is a function from a value and
-- a state to a state, and one that is pulled from is a function from a state to a value and a state.
-- The state of an element has what its neighbours keep as its last part, and the neighbours are
-- arguments. Map, Filter (with if.h), Counter, Dup, Dedup, Branch (tee.h), RoundRobin, Queue, GroupBy
-- and Join are modules; Element has the interface, id.h, lambda.h, drop.h and register.h. Join has
-- the push half of join.h, Join.Pull the other and Join.Given what it gives, with one type for the
-- values of both sides. Negative counts given to dup.h and dedup.h are not modelled.
--
-- Click elements: src/click. Click has the elements of the older library in the same way, with the
-- records of PushPull where the state is the same: Forward (map.h, call.h, dup.h, tee.h), Dedup and
-- GroupBy. Values are copied, not moved. Click.Driver has a turn of the event loop of driver.cc, with
-- the events that `zmq::poll` finds as an argument, and Click.Timer the timers of timer.h: any timer
-- may have expired at a turn. Click.TimerFd has the objects of timer_file_descriptor.cc at their
-- addresses and what the kernel keeps of their descriptors; which descriptor is made is an argument.
-- Click.Socket has the elements at the two ends, socket_recv.h and socket_send.cc.
--
-- Example server: src/click/example_server.cc. Click.Server has the elements as main composes them,
-- on the state of the group by, the dedup, the timer and the two sockets that are sent over, with the
-- ordered maps of Std.OrderedMap under the `operator<` of connection ids; Click.Server.Tally has what
-- it is compared with. A sum that is no `int` has no defined value (`none`), and the delays that are
-- found over together may end in any order.
--
-- Flow operators: src/flow. An operator is what next and reset do to its state (Flow.Operator, with
-- iterator.h, map.h and empty.h). Flow.Select has filter.h and Flow.Product cross.h and
-- naive_equijoin.h, as the list of all that their loops yield. The two last are coroutines: in
-- Flow.Coroutine they run from one yield to the next, with the call of next and reset of
-- coroutine_operator.h. A filter and the loops of the products may meet a child with no end, so they
-- run on fuel: more fuel than the children give tuples is enough for a filter and for each loop, and
-- for a coroutine more than two steps and the number of right tuples for each left one. Flow.Exchange
-- is a step relation of the owner of an exchange and the thread that reads the child, with a step for
-- each access to one of the two queues between them (exchange.h).
--
-- Threads: src/concurrency. Each time a thread holds the mutex is one step, so that a run of several
-- threads is a sequence of calls, in the order in which they get it. In Concurrency.Queue and
-- BoundedQueue a call that would wait is not a step (`none`). In Concurrency.Barrier a thread that
-- waits is counted as asleep, and a step lets a thread enter, lets one that was notified test the
-- count, or wakes one with no notification.
--
-- In Concurrency.ThreadPool a step is a submission, a push of the destructor, a worker that takes
-- from the queue, or a task that returns; tasks are not looked into, and may submit others.
--
-- Messages over ZeroMQ: src/zmq_util. Zmq.Message has the copies and orders of messages, connection
-- ids and envelopes, and Zmq.Envelope what is sent over a socket and received from it, as frames with
-- the flag for more. Zmq.Proto has the templates of zmq_util.h for protocol buffers; how these are
-- laid out in bytes is a parameter (Codec), with the law that what was serialized is parsed as it
-- was. Zmq.HexDump has the text that hexdump.cc prints; its loop over rows runs on fuel, one row for
-- each byte, and a number n has at most n + 1 digits.
--
-- All other loops are structural recursions on the list, the number or the array that they run over.
--
-- Not modelled: how sockets connect and the message broker routes, the start of threads and what they
-- print, the bytes of protocol buffers, the printing of envelopes, the conversion of pointers to
-- messages, and when a timer goes off, which only the kernel sees.
pub mod Base
pub mod Std
pub mod Lattices
pub mod Kvs
pub mod PushPull
pub mod Click
pub mod Flow
pub mod Concurrency
pub mod Zmq
pub mod Tests
