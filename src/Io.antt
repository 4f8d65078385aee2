-- ===== src/Io.antt =====
-- AMSServer/src/PerIOData.cpp and SocketHandle.cpp: the buffer and the state of one overlapped
-- operation, and the heap on which the handlers allocate and release them.
pub mod Buffer
pub mod Texts
pub mod World
pub mod Yields
