-- ===== src/PushPull.antt =====
-- src/pushpull: elements that push values downstream or pull them from upstream.
pub mod Element
pub mod Counter
pub mod Map
pub mod Filter
pub mod Dup
pub mod Dedup
pub mod Branch
pub mod RoundRobin
pub mod Queue
pub mod GroupBy
pub mod Join
