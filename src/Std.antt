-- ===== src/Std.antt =====
-- What the program uses of Go's standard library: texts, numbers, slash paths and addresses.
pub mod Cut
pub mod Numbers
pub mod Places
pub mod FilePaths
pub mod Net
pub mod Trims
pub mod Decimals
