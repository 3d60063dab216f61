-- ===== src/Go.antt =====
-- What the program takes from the Go language and its standard library: 64-bit integers, instants
-- and durations of package time, and maps with string keys, texts, paths and addresses.
pub mod Int64
pub mod Time
pub mod Map
pub mod Header
pub mod Strings
pub mod Strconv
pub mod Net
pub mod Filepath
