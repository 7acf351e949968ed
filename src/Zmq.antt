-- ===== src/Zmq.antt =====
-- src/zmq_util: messages, connection ids and enveloped messages, and how they are printed.
pub mod Message
pub mod Envelope
pub mod Proto
pub mod HexDump
