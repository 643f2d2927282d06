-- ===== src/Lib.antt =====
-- netrpc, an RPC framework in C++: epoll reactors, a length-prefixed protocol around protobuf
-- payloads, a dispatcher of registered services. This library models the path of a request
-- through one connection, from the bytes that ::read returns to the bytes that ::write is given,
-- and the parts of the reactor and of the client that stand around it.
--
-- The parts, and the files that model them:
--
-- * TcpBuffer (netrpc/net/tcp/tcp_buffer.h, tcp_buffer.cc): the byte buffer with a read index and
--   a write index that each direction of a connection has. TcpBuffer.antt has the record and one
--   function per method: readAble is read_able, writeToBuffer is write_to_buffer, and so on.
--   Contents has the representation invariant and the bytes that a buffer holds for its reader,
--   Safety, Reads and Moves what the methods do to them.
-- * TinyPBCoder and TinyPBProtocol (netrpc/net/coder): a message and its frame, PB_START, lengths
--   and texts in network order, PB_END. TinyPb/Protocol has the message, TinyPb/Encoder
--   encodeTinyPB (encode_tiny_pb) and encode, TinyPb/Decoder decode, cut into the search for a
--   frame (find_frame) and the parse of its fields (parse_message and its continuations). Cursor,
--   Frame and Parse follow the indices of the decoder through one frame, RoundTrip and Delivery
--   through a buffer of frames, Stall through a malformed one.
-- * RpcDispatcher (netrpc/net/rpc/rpc_dispatcher.h, rpc_dispatcher.cc, rpc_closure.h) with the
--   error codes (netrpc/common/error_code.h) and RunTime (netrpc/common/run_time.h):
--   Rpc/ServiceName has parseServiceFullName, Rpc/Dispatcher dispatch and the map of
--   registerService, its children the branches.
-- * RpcController (netrpc/net/rpc/rpc_controller.h, rpc_controller.cc): Rpc/Controller.
-- * MsgIDUtil (netrpc/common/msg_id_util.cc): MsgIdUtil has GenMsgID, MsgIdUtil/Counter the number
--   that an id writes.
-- * TcpConnection (netrpc/net/tcp/tcp_connection.h, tcp_connection.cc): Tcp/Connection has the
--   state, reply, the loop of onRead (receive) and excute on both sides; Tcp/Connection/Events the
--   handlers onRead and onWrite. Receive and Loss are about the loop of onRead, Server about excute
--   of a server, Resend about onWrite.
-- * TcpServer and TcpAcceptor (netrpc/net/tcp/tcp_server.cc, tcp_acceptor.h, tcp_acceptor.cc):
--   Tcp/Server has onAccept and ClearClientTimerFunc, Tcp/Server/Turns the IO threads,
--   Tcp/Server/Init init and the constructor of IOThreadGroup; Tcp/Acceptor the listening socket.
-- * TcpClient (netrpc/net/tcp/tcp_client.cc): Tcp/Client has connect and its callback, writeMessage
--   and readMessage; Tcp/Client/Socket has the client's descriptor, its local address and stop.
-- * RpcChannel (netrpc/net/rpc/rpc_channel.h, rpc_channel.cc): Rpc/Channel has the state of a call,
--   callBack, and the callbacks of a call as events of the loop (on_connect_done, on_sent,
--   on_response, on_timeout); Rpc/Channel/CallMethod has CallMethod with its retries. Keeps, Once
--   and Session follow the runs of the closure through any events, Answer and Outcome a call to its
--   end, Silent the retries behind a failed attempt, and Rpc/RoundTrip puts it together with a
--   server, Rpc/RoundTrip/Upload the bytes of the request between them. Rpc/CallRpc has the macro
--   CALLRPC, Rpc/Channel/FindAddr the stubs that a name stands for.
-- * IPNetAddr (netrpc/net/tcp/net_addr.h, net_addr.cc): NetAddr has the parse, the print and the
--   checks, NetAddr/SockAddr the sockaddr_in; Decimal has the decimal numbers of the C++ library.
-- * Timer and TimerEvent (netrpc/net/timer.h, timer.cc, timer_event.h, timer_event.cc): Timer.antt
--   has the multimap of pending events, onTimer, addTimerEvent, deleteTimerEvent and
--   resetArriveTime. Timer/Order and Timer/Armed have what the calls keep, Timer/Due the events
--   that are found due, Timer/Cancel the calls over time.
-- * FdEvent and FdEventGroup (netrpc/net/fd_event.h, fd_event.cc, fd_event_group.cc): FdEvent.antt.
-- * EventLoop (netrpc/net/eventloop.h, eventloop.cc): EventLoop.antt has one round of loop, addTask
--   and the two macros that call epoll_ctl; EventLoop/Epoll replays their calls, and
--   EventLoop/Tasks has the queue that a round takes its tasks from, EventLoop/Start the
--   constructor. EventLoop/Threads has the steps of the loop's thread and of the threads that push
--   to it, Wakeup and Lost what the eventfd tells the loop.
-- * IOThread (netrpc/net/io_thread.h, io_thread.cc): IoThread has the steps of the owner and of
--   Main, IoThread/Life the orders that the semaphores bring about.
-- * ZkClient (netrpc/common/zookeeperutil.h, zookeeperuitl.cc) and what registerService publishes
--   by it: ZkClient; ZkClient/Register has the nodes that are made, Allowed why a server accepts
--   them, Discover the way of an address from a server's settings to a client's channel.
-- * ConsistentHash (netrpc/common/consistent_hash.h, consistent_hash.cc) and murmur3_32
--   (netrpc/common/enc/murmurhash.cc): Murmur and ConsistentHash.
-- * The strategies of load balance (netrpc/net/load_balance.h, load_balance.cpp), and the turns of
--   IOThreadGroup (netrpc/net/io_thread_group.cc): LoadBalance has the round robin and the names of
--   the strategies, LoadBalance/Selector the random strategy and ConsistentHashLoadBalanceStrategy
--   with its selectors, LoadBalance/Stale what the latter keeps.
-- * MD5 (netrpc/common/enc/md5.h, md5.cpp), under those selectors: Md5, and Md5/Lengths.
-- * Logger and AsyncLogger (netrpc/common/log.h, log.cc): Log has the buffers, syncLoop and flush,
--   the rounds of the writing thread (loop) and the lines of the macros; Log/Stream, Log/Steps and
--   Log/Rounds follow the lines to the files. Log/Crash has Init and the handler of signals.
-- * StringCoder (netrpc/net/coder/string_coder.h): StringCoder, and StringCoder/Merge.
-- * Config (netrpc/common/config.h, config.cc): Config has Init, over a document of TinyXML.
-- * StdMap has std::map as these files use it, Base the numbers, lists and outcomes they share.
--
-- A connection's onRead fills its in buffer and calls excute, which decodes the buffer, dispatches
-- each request and encodes the responses to the out buffer; onWrite offers that buffer to the
-- socket. A handler's closure replies on the connection from inside dispatch.
--
-- Conventions. Bytes are natural numbers. An int of the code is an integer; the 32-bit conversions
-- at the wire are written out (to_int32, to_word), other int arithmetic is exact, since the vectors
-- are shorter than 2 ^ 31 bytes: where a growth of a buffer (make_room) or a length that a peer
-- sends (frame_from) carries a sum past an int, the model has the exact sum. An access outside a
-- vector or an array, or a negative size, is the error fault. The loops `while (1)` of decode,
-- `while (!is_read_all)` of onRead and that over m_write_dones run on fuel, and out_of_fuel is the
-- error of a loop that has not returned: decode is given more fuel than the buffer has frames,
-- receive more than there are bytes, and the theorems say that this is enough. What ::read and
-- ::write return is an argument: ::read gives as many of the waiting bytes as fit, and ::write
-- accepts any number.
--
-- A client's CallMethod connects, in as many attempts as its controller allows; the callback of a
-- connect queues the request, that of the write waits for the response, that of the read ends the
-- call, and so does the timer's event. What each ::connect returns and the events are arguments, in
-- any order, within connect (where the loop runs inside it) and behind the call.
--
-- protobuf and the services of the user are a parameter (Rpc.Dispatcher.Protobuf), and so is a
-- document that TinyXML has read (Config.Xml). Callbacks are numbers whose meaning is a parameter.
--
-- Events of the timer are shared objects: the map holds references into a store, and each call of
-- getNowMs takes the next reading of a clock that is an argument. The timer fd is the time that it
-- counts down from; the callbacks of onTimer run behind it, so it returns them.
--
-- ZooKeeper's library and server are a parameter (ZkClient.ZooKeeper) with the laws that its
-- documentation gives (ZkClient.Register.IsStore, ZkClient.Allowed.IsServer). A thread is a step
-- relation between its accesses to what it shares (EventLoop/Threads, IoThread), under which the
-- other threads may step in.
--
-- Not modelled: the system calls of the constructors (in Tcp/Connection the interest of a connection
-- is two flags, and its timer and its loop are left out), and the freeing of memory.
pub mod Base
pub mod TcpBuffer
pub mod TinyPb
pub mod StdMap
pub mod Rpc
pub mod Tcp
pub mod Timer
pub mod MsgIdUtil
pub mod FdEvent
pub mod EventLoop
pub mod IoThread
pub mod ZkClient
pub mod Decimal
pub mod NetAddr
pub mod Log
pub mod Config
pub mod StringCoder
pub mod Murmur
pub mod Md5
pub mod ConsistentHash
pub mod LoadBalance
