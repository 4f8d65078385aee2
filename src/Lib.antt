-- ===== src/Lib.antt =====
-- AMSServer is a Windows program that answers authorisation requests of set-top boxes over HTTP. A
-- request is the text behind the "?" of a GET line, such as
-- "Query=0&ProjectID=P1&VendorID=V1&STBID=...". Worker threads wait on an I/O completion port. An
-- accept gives a connection its handle and its first receive; a receive that has brought a whole
-- request hands the text to a new HttpData, whose payload goes back as an HTTP response. The
-- derived class MySqlHttpData takes its replies from a database; the server constructs the base
-- class so far.
--
-- HttpData (AMSServer/src/HttpData.cpp, AMSServer/include/HttpData.h): HttpData/State has the
-- class's members and its constructor, HttpData/Parse has ParseRecvBuf and what it calls,
-- HttpData/Build has BuildPayLoad, the payloads, the virtual methods and HandleHttpData.
-- HttpData/Protocol is the specification: which payload a text is due, independent of the code's
-- order of steps. HttpData/Items reads the five items of a text in one go; HttpData/Auth, Reply,
-- Unique, Limits and RoundTrip have the proofs.
--
-- MySqlHttpData (AMSServer/src/MySqlHttpData.cpp): MySql/Handler has the class on a parameter, the
-- record Mysql of MySql/Client, that stands for the client library; MySql/Table has
-- ShowQueryDetails. MySql/Queries says which queries are made; MySql/Unknown, Connected, Counts,
-- EndToEnd, Linked, Fits, Total and Aligned have the proofs.
--
-- PerIOData, SocketHandle and HeapProtectMutex (AMSServer/src/PerIOData.cpp,
-- AMSServer/src/SocketHandle.cpp, AMSServer/src/HeapProtectMutex.cpp): Io/Buffer and Io/World.
-- World is the state that the handlers share: the objects by their addresses, the operations that
-- the system has started, the sends and the closed sockets. Addresses are never used again, and
-- address 0 is NULL. A released object is absent, and an access to it is the fault use_after_free.
--
-- IOCPServer and HttpServer (AMSServer/src/IOCPServer.cpp, AMSServer/src/HttpServer.cpp):
-- Server/Iocp has the posts and the handler of an accept, Server/Http, Response and HttpRecv the
-- handler of a receive, Server/Worker one round of WorkerThread, Server/Worker/Thread its loop,
-- Server/Lifecycle Start and Stop. Server/Worker/Received has the case of a receive, for any
-- bytes, and Server/Worker/History any sequence of rounds. Each handler runs on World between two
-- completions. Server/System has the server as a whole: Owned and Sound say which io each pending
-- operation owns, Posts, Accepts, Receives and Starts show that the handlers keep it, and
-- Completed has any sequence of completions. There the system takes a pending operation off,
-- stores what it received, and a worker takes a round. Server/Interleaved has the workers as
-- threads. Steps and Handlers write each handler as a tree of its accesses and calls, Does runs
-- the posts for a connection with no other thread between, and Pool lets n threads take the steps
-- of their rounds in any order, each step on the world that the others left. Own says what a
-- thread owns of the ios, the handles and the mutex, and what a step leaves to the others; Rules,
-- Calls, Starts, Handles, Posts, Accepts, Receives and Rounds follow the handlers; Good and Moves
-- have the invariant of the pool, Safety, Finite, Ends and Started what comes of it. WSASend with
-- the bytes that it takes is one step, and so is each access to an object. What the system answers
-- to its calls is the argument Answers or StartAnswers.
--
-- FileLog and AMS_DBUG_LOG (AMSServer/src/FileLog.cpp, AMSServer/src/AMSServer.cpp): Log.
-- Singleton has the static pointers of FileLog, HeapProtectMutex and IOCPServer, and Process the
-- main function, which makes and deletes the three objects; Process/Ends has what it comes to,
-- with the workers that run on after a dialog that was ended with the server running, given by
-- what they use.
--
-- The dialogs (AMSServer/src/MFCAPP.cpp, AMSServer/src/MFCLoginGUI.cpp,
-- AMSServer/src/MFCMainGUI.cpp): Gui/Login has the login and InitInstance, Gui/Main the handlers
-- of the main dialog, which start and stop the server of Server/Lifecycle, and Gui/Session what
-- MFC lets a user do while the workers run. SSLserver (AMSServer/src/SSLserver.cpp): Ssl, on a
-- parameter for OpenSSL.
--
-- Base and Crt are shared: Base has the tests, lists and faults, and Crt what the program uses of
-- the C run-time library, as it is documented. A call that the library refuses, an access out of a
-- buffer's bounds and one to a released object are faults, and a fault ends the run. The tests of
-- Tests apply the theorems to concrete requests, processes and databases.
--
-- Buffers have the sizes of the source: 1500 bytes for an io, 1024 for a request and a payload,
-- 256 for the query and for a statement, 32 for the names, 1000 for a line of the log. Requests
-- have fewer than 980 bytes where their values are logged, so that each line with its name fits;
-- the queries of the server have fewer than 256. sscanf_s reads the size of a buffer that the
-- source does not pass; the parameter sizes gives what it reads, by the call. Fuel occurs in the
-- decimal digits of a number only, where a number n has at most suc n digits.
--
-- Not modelled: MFC itself; SSLAccept, which has no body; the texts of the message boxes; the
-- lines of the log other than those of a received message and of the values in a request, which
-- are bounded; destructors that the program never runs; accesses of two threads to one object that
-- are not atomic: a step of a thread reads or writes a whole object.
pub mod Base
pub mod Crt
pub mod HttpData
pub mod MySql
pub mod Io
pub mod Server
pub mod Log
pub mod Singleton
pub mod Process
pub mod Ssl
pub mod Gui
pub mod Tests
