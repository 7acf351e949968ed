-- ===== src/Click.antt =====
-- src/click: elements that values are pushed through, on the model of the elements of src/pushpull.
pub mod Forward
pub mod Dedup
pub mod GroupBy
pub mod Driver
pub mod Socket
pub mod Server
pub mod Timer
pub mod TimerFd
