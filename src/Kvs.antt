-- ===== src/Kvs.antt =====
-- src/key_value_stores: the server, its gossip, and the transactional clients.
pub mod Message
pub mod Server
pub mod Cluster
pub mod Worker
pub mod System
pub mod Client
