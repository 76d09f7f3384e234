-- ===== src/Client.antt =====
-- client: the client that writes data with its metadata, and traverses what is linked.
pub mod Traversal
pub mod Metastor
pub mod Objects
pub mod Assembled
pub mod Tokens
