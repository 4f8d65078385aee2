-- ===== src/MySql.antt =====
-- AMSServer/src/MySqlHttpData.cpp and include/MySqlHttpData.h: the handler that asks a database.
-- The client library is a parameter, `Mysql`.
pub mod Client
pub mod Table
pub mod Handler
pub mod Queries
pub mod Unknown
pub mod Counts
pub mod Connected
pub mod Linked
pub mod Fits
pub mod Total
pub mod EndToEnd
pub mod Aligned
