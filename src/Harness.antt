-- ===== src/Harness.antt =====
-- lab3/raft/config.go: the test harness of Raft, in parts. The arrays over the servers are functions,
-- read below the number of servers.
pub mod Logs
pub mod Leaders
pub mod Wires
pub mod Saves
