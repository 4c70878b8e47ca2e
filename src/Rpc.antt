-- ===== src/Rpc.antt =====
-- The gRPC status codes that the two allocators answer with: codes.InvalidArgument,
-- codes.FailedPrecondition and codes.Internal.
pub data Code : Type 0 where
  invalid_argument failed_precondition internal_error : Code
