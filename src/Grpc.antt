-- ===== src/Grpc.antt =====
-- cpp/grpc: the transport between a client and the core.
pub mod Proto
pub mod Codec
pub mod Rpc
pub mod Server
pub mod Client
