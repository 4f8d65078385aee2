-- ===== src/Crt.antt =====
-- The functions of the C run-time library that the program calls on texts, as the library
-- documents them. A text is the list of its bytes before the terminating NUL; the capacity of the
-- buffer that holds it is an argument.
pub mod Text
pub mod Scan
pub mod Number
pub mod Bounds
pub mod Equality
pub mod Search
