-- ===== src/Hdfs.antt =====
-- petastorm/hdfs/namenode.py: the resolution of a name service to its namenodes, and the client that
-- moves on to another namenode when a call fails.
pub mod Resolver
pub mod Failover
pub mod Attempts
mod Examples
