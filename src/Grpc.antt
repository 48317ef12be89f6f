-- ===== src/Grpc.antt =====
-- The package grpc.
pub mod Server
pub mod Ofctl
