-- ===== src/Rpc.antt =====
-- The JSON-RPC client of src/rpcclient.cpp and the message objects of src/rpcprotocol.cpp.
pub mod Convert
pub mod Message
pub mod Call
pub mod Laws
pub mod Device
pub mod Handshake
pub mod Connect
pub mod WholeCall
pub mod CommandLine
pub mod Errors
