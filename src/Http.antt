-- ===== src/Http.antt =====
-- The HTTP layer of src/rpcprotocol.cpp: requests and replies as texts, and the readers of a
-- stream. A stream is the list of the bytes that are still to come; a reader returns what is left.
pub mod Stream
pub mod Write
pub mod Read
pub mod Lines
pub mod Framing
pub mod Literal
pub mod Exchange
pub mod Reply
