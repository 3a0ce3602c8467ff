-- ===== src/Types/Environment.antt =====
-- common/network.go: the network that the node works on.
pub data Environment : Type 0 where
  mainnet stagenet development : Environment
