-- ===== src/Handler.antt =====
-- `CFidRpcWrap`, `CFidDbWrap` and `CFidHandler` of src/wrap.cpp: fetching blocks and transactions
-- over RPC, reading them out of JSON, and handing them to the database.
pub mod SwitchBlock
pub mod SwitchTx
pub mod World
pub mod Fetch
pub mod Store
pub mod Kinds
pub mod Blocks
pub mod Inserts
pub mod Extends
pub mod Frames
pub mod Reads
