-- ===== src/Rtmq.antt =====
-- The message queue between servers: src/clang/lib/rtmq.
pub mod NodeMap
pub mod Wire
pub mod Recv
pub mod Send
pub mod Subs
pub mod Auth
pub mod Link
pub mod Proxy
pub mod Compare
pub mod Dist
pub mod Conns
