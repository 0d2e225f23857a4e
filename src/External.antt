-- ===== src/External.antt =====
-- Third-party code that the repository calls, as interfaces with the laws that their documentation
-- states, each with a concrete value that meets them.
pub mod ByteOrder
pub mod Primitive
pub mod Json
pub mod Value
