-- ===== src/Lib.antt =====
-- A verification library for the servers, pools and queues of this repository, and for its shell.
--
-- The repository holds one exercise per day, each a program of its own; the ones modelled are the
-- network programs, the queues, pools and loops that keep state or parse input. They do not call one another;
-- where one has the text of another's file, the model of that file serves both.
--
-- The calculator server (test_06_18/Server) is a reactor. Reactor.hpp keeps a table of connections in step
-- with epoll, calls a connection's Recver and Sender when it is ready, and Channel.hpp reads what has arrived,
-- hands it to the handler of Main.cc and sends the reply. The handler takes frames off the buffer with
-- Protocol::Decode, and Protocol::Excute turns each into a request, calls Cal::Execute of NetCal.hpp and frames
-- the response. A client builds requests and reads responses with the same Protocol.hpp.
--   Text        std::string as a list of bytes: find, substr, to_string, stoi, a C string in a buffer
--   Calc        Cal::Execute of test_06_18/Server/NetCal.hpp, with int overflow as undefined behaviour
--   Protocol    Encode and Decode of test_06_18/Server/Protocol.hpp and the loop of the handler in Main.cc
--   Message     Request, Response, Excute, BuildRequestString and GetResponse of the same file; the JSON
--               library is the interface `Json`, whose laws are the round trips of the two messages
--   Reactor     Reactor.hpp, Connection.hpp, Channel.hpp, Listener.hpp and Epoller.hpp; the calls to the
--               kernel are recorded in order, its answers to recv, send and accept are scripts; its answers to
--               epoll_ctl, which the loop only logs, are an argument of what `Reactor/Sync` states
-- The other programs:
--   SelectServer  test_06_05/SelectServer/SelectServer.hpp: the table of descriptors; FD_SET and FD_ISSET are undefined
--                 for a descriptor of FD_SETSIZE, 1024, or more
--   PollServer    test_06_06/PollServer/PollServer.hpp: the array of pollfd
--   EpollServer   test_06_12/PollServer/EpollServer.hpp: what is watched through epoll
--   Http          test_05_03/session/HttpProtocol.hpp and Session.hpp: requests, responses, sessions
--   Pages         test_04_20: Http.hpp, Util.hpp and Main.cc, from a request for a file or a service to
--                 the response; the files are a parameter
--   Chat          test_04_03/3.Chatserver/Route.hpp and inetAddr.hpp: the users and who gets a message
--   Dict          test_04_03/2. dictserver/Dict.hpp: the dictionary
--   RingQueue     test_03_25/Sem_Ring/RingQueue.hpp: producers and consumers, one action per statement, in
--                 any interleaving; the semaphores of Sem.hpp count and a lock of Mutex.hpp has one holder
--   ThreadPool    test_05_03/session/ThreadPool.hpp: the workers on their queue and the one instance; a move is
--                 what a thread does while it holds the mutex, and the moves come in any order; whether the
--                 reads of `instance` without the lock are atomic is an argument
--   BlockQueue    test_03_23/CP/BlockQueue.hpp: the bounded queue with two condition variables, likewise; `BlockQueue/Alone` is
--                 about the one producer and the one consumer of Main.cc
--   ProcessPool   test_03_05/ProcessPool: the children, who holds which end of which pipe, the codes they get
--   Shell         test_02_22/myshell/myshell.cc: from a line to the program that runs and its exit status; an input is
--                 what stands in front of fgets, which reads 1023 bytes of it at most
--   Chain         test_03_18/ChainOfResponsibility.hpp: the handlers that format, save and back up a text; `tar`
--                 is a parameter
--   WaitQueue     test_03_25/Cond/BlockQueue.hpp: the queue that tests again behind its waits
--   StopPool      test_03_31/ThreadPool/ThreadPool.hpp: the pool that can be stopped, its threads and callers in any order
--   Semaphore     test_03_26: Sem.hpp and the two processes of Writer.cc; the sets of the kernel are part of the model
--   Tickets       test_03_23/Lock: threads that sell tickets under a lock
--   MsgQueue      test_03_18: MsgQueue.hpp, Client.cc and Server.cc, which feed the texts of clients to `Chain`
--   EarlyShell    test_02_13/myshell/myshell.cc: the loop of the shell before it had redirections
--   SessionServer test_05_03/session/TcpServer.hpp: the connections whose requests `Http` answers
--   SessionLog    test_05_03/session/Log.hpp: the lines, styles and files of its log
--   CalcService   test_04_16/NetCal/Protocol.hpp: GetRequest, the calculator with a process for each connection
--   ForkServer    test_04_16/NetCal/TcpServer.hpp: the parent that accepts, and the processes that serve
--   CommandServer test_04_15/TcpEchoServer: Command.hpp and TcpServer.hpp, the commands that clients may run and the
--                 threads that serve them
--   Log           test_06_18/Server/Log.hpp, of which the other programs have copies: a line and where it goes
--   Thread        test_03_31/ThreadPool/Thread.hpp: a thread object and its flags
-- Prelude holds what they share: Boolean tests, lists, association lists, `int`, and `Outcome`, the result
-- of code that may return, throw, be undefined or not end. Tests applies the theorems at concrete inputs.
--
-- Fuel: the handler's loop, GetResponse and Deserialize of a request run on fuel. A round that takes a
-- frame or a line shortens the buffer, so the buffer's length and one is enough where every header announces
-- a length that is not negative. Where the source
-- spins for ever, `unfinished` is the result for every fuel. The digits of a number run on the number itself.
-- The tables of the select and the poll server keep their 1024 and 4096 slots as the loop's bound.
-- The words of a command line run on the line's length and one: a word takes a byte at least.
--
-- Not modelled: the log output of the other parts, addresses and the set-up of sockets, which only call the
-- system; the clock, which is an argument where a time is printed. Cond::Wait of test_03_31 and test_03_25 destroys the
-- mutex that it then waits with: StopPool and WaitQueue take as an argument whether that fails and leaves the mutex as it
-- is, and the first wait is undefined without it. Data races are left out where a handler of the source runs in several
-- threads without a lock: its calls follow one another. Numbers that count (descriptors, users, logins) are taken to stay
-- below the bounds of `int`.
pub mod Prelude
pub mod Text
pub mod BlockQueue
pub mod Calc
pub mod CalcService
pub mod Chain
pub mod Chat
pub mod CommandServer
pub mod Dict
pub mod EarlyShell
pub mod EpollServer
pub mod ForkServer
pub mod Http
pub mod Log
pub mod Message
pub mod MsgQueue
pub mod Pages
pub mod PollServer
pub mod ProcessPool
pub mod Protocol
pub mod Reactor
pub mod RingQueue
pub mod SelectServer
pub mod Semaphore
pub mod SessionLog
pub mod SessionServer
pub mod Shell
pub mod StopPool
pub mod Tests
pub mod Thread
pub mod ThreadPool
pub mod Tickets
pub mod WaitQueue
