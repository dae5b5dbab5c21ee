-- ===== src/Std.antt =====
-- What the program uses of Go's standard library, by its documented behaviour.
pub mod Strings
pub mod Strconv
pub mod Url
pub mod Net
pub mod Masks
