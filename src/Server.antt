-- ===== src/Server.antt =====
-- AMSServer/src/IOCPServer.cpp and HttpServer.cpp: the handlers of the completion port. Each runs
-- between two calls of GetQueuedCompletionStatus, on the state `World`.
pub mod Iocp
pub mod Http
pub mod Response
pub mod HttpRecv
pub mod Worker
pub mod Lifecycle
pub mod System
pub mod Interleaved
