-- ===== src/HttpData.antt =====
-- AMSServer/src/HttpData.cpp and include/HttpData.h: the protocol above HTTP. The object is a
-- record; its buffers hold texts, and their capacities stand where they are written.
pub mod State
pub mod Parse
pub mod Build
pub mod Items
pub mod Auth
pub mod Protocol
pub mod Reply
pub mod Limits
pub mod Tame
pub mod Unique
pub mod RoundTrip
