-- ===== src/Lib.antt =====
-- cvcn is a chat: a server that serves its clients from one event loop and a pool of workers, and a
-- Qt client. Both ends speak packets of twelve header bytes and a body.
--
-- Common holds the names and lemmas that all parts share. Maps with number keys are association
-- lists (Common/Dict), and an identifier that may be -1 in the code is an Option.
--
-- Wire (Bytes, Packet, Builder, Parser): utils/ByteReader.cpp, utils/ByteWriter.cpp,
-- protocol/PacketData.h, PacketBuilder.cpp and PacketParser.cpp of server/ and client/, where the
-- two agree. Wire/Bytes/Laws and Wire/RoundTrip relate the two directions, Wire/Bytes/Truncated is
-- about bytes that are missing.
--
-- Validator: utils/Validator.cpp of both ends. Validator/Spec says in words what passes.
--
-- Framing/Server: server/net/PacketAssembler.cpp and the loop of ClientSession::handleRead that
-- takes packets out of it. The loop runs on fuel, one round for each byte in the buffer: a round
-- takes twelve bytes at least, and extract_loop-fuel in Framing/Server/Stream shows that more fuel
-- changes nothing.
--
-- Sender: server/net/PacketSender.cpp. What ::send returns is a function of the number of the call;
-- the record also holds the bytes that the socket took and whether EPOLLOUT is registered.
--
-- Session: server/net/ClientSession.cpp. The results of recv in one call of handleRead are a value
-- of Recv, which ends as the loop ends: closed by the peer, EAGAIN or an error.
--
-- Server: what a worker runs. Server/Registry is server/net/SessionRegistry.cpp, Server/Services is
-- AuthService.cpp, ChatService.cpp and MessageService.cpp of server/services/, Server/Dispatcher is
-- server/protocol/PacketDispatcher.cpp. Session objects live at addresses of a heap, and pointers
-- are such addresses: a call on an address that the heap does not hold is the use of a deleted
-- object and gives none. The repositories are a parameter, a record with the operations of the
-- interfaces in server/storage/; nothing is asked of them. Server/Safety says what calls keep, and
-- Server/Truncated what becomes of a body that is cut short.
--
-- Manager: server/net/SessionManager.cpp with the jobs of server/net/ThreadPool.cpp, the commands
-- of server/net/ResultQueue.cpp and the callbacks of server/app/main.cpp. A step is one callback of
-- the event loop, one drained queue, or one job that a worker runs to its end; the jobs may be run
-- in any order. Manager/Racing takes both apart: the loop of broadcastToChat
-- (server/services/MessageService.cpp) in two parts for each member, findByUserID and sendRaw, and
-- the commands of a drained queue one by one, with every other event in between; the rest of a job
-- stays one step. It allows more than the code does, since any job may broadcast any message and
-- end before its broadcast is over. Manager/Racing/Safety is about all such runs,
-- Manager/Racing/Dangling about a recipient that is deleted between the two parts. Manager/Poller
-- is the round of server/net/EventPoller.cpp for one descriptor, Manager/Loop its whole loop with
-- accept. Manager/Invariant and Manager/Safety are about the events that Manager/Safety/Events
-- allows, and Manager/Hazards about the three that it does not: EPOLLOUT on a closed session with
-- tasks, a connection on a descriptor whose closed session is not deleted yet, and a second login
-- on one session. Manager/Draining is about the deletions that wait for tasks. Manager/Shutdown is
-- the end of server/app/main.cpp with the destructor of SessionManager: a round of its loop is a
-- drained queue and the jobs that workers end, as whole steps, while the main thread sleeps, though
-- in the code they also run while it drains; Manager/Shutdown/Termination is about the number of
-- rounds. Jobs between the commands of a drain are in Manager/Racing.
--
-- Pool: server/net/ThreadPool.cpp. An event is a part of a method that holds the mutex, and the
-- threads get it in any order; Pool/Order is about the order of the tasks, Pool/Shutdown about
-- stop, and Manager/Pooling makes the jobs of the manager out of the pool.
--
-- Queue: server/net/ResultQueue.cpp with the counter of its eventfd, in the parts that other
-- threads see as a whole; a drain may start whatever the counter is, and `notified` is the one of
-- the event loop; Queue/Order is about the order of the commands, Queue/Wakeup about when the main
-- thread drains them.
--
-- Storage: server/storage/. SQLite is a parameter, a record of the calls of its interface; the
-- texts of SQL are the constructors of a type, the values bound to them are lists. A loop over
-- sqlite3_step is a recursion over the rows that it returns. Storage/Users, Chats and Database are
-- UserRepository.cpp with MessageRepository.cpp, ChatRepository.cpp and Database.cpp, and
-- Storage/Interface makes of them the repositories that the services call. Storage/Laws and
-- Storage/Accounts state what is relied on of SQLite's transactions and tables; Tests/Memory is an
-- engine that keeps it. Storage/Statements is about sqlite3_finalize, Storage/Transaction about
-- findOrCreateDirectChat, and Storage/Races about two workers on the one connection. An identifier
-- below 0, which SQLite does not assign, is -1 for the services.
--
-- Startup: promptForPort of server/app/PortSelector.cpp and server/net/ListeningSocket.cpp; a round
-- of the dialogue holds what the system answers in it, and std::stoi is a parameter.
--
-- Client/Connection is slotReadyRead of client/net/Connection.cpp, on the same fuel, and
-- Client/Connection/Agreement compares it with the server. Client/Protocol is
-- client/protocol/ProtocolClient.cpp; Client/Protocol/Requests and Answers say what a request and
-- an answer stand for, and Client/Protocol/Delivery puts both ends together. Server/Outcomes says
-- what a login and a message do.
--
-- Client/Controllers joins the controllers of client/logic/, the connection's send and what the
-- windows are told into one state; Client/Controllers/Login and Stuck are about its logins.
--
-- Client/Window is client/ui/ChatWindow.cpp and Client/Dialog client/ui/AccountDialog.cpp, whose
-- widgets are their contents. Client/Reading is the way from the socket to the controllers, and
-- Client/Journey follows a message from one user to another, and Client/Journey/Login a login.
--
-- Program is server/app/main.cpp from its start to its return: Startup, the event loop of
-- Manager/Loop and Manager/Shutdown, one after the other; while the rounds of the loop do not end
-- it, main serves. An Environment holds what the system answers in a run.
--
-- Logger is server/utils/Logger.cpp up to the calls of spdlog, which is a parameter.
--
-- Not modelled: what two workers do at the same time inside one dispatch, but for its broadcast,
-- exceptions and lack of memory, epoll_ctl, the wakeups of condition variables, spdlog, the signal
-- handler, Qt itself with QString::fromStdString, a parameter, and the calls of the log in the
-- other parts.
pub mod Common
pub mod Wire
pub mod Validator
pub mod Framing
pub mod Sender
pub mod Session
pub mod Server
pub mod Manager
pub mod Pool
pub mod Queue
pub mod Storage
pub mod Startup
pub mod Program
pub mod Logger
pub mod Client
pub mod Tests
