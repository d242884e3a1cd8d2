-- ===== src/Grpc.antt =====
-- src/grpc: the framing of gRPC messages.
pub mod Frames
mod Tests
