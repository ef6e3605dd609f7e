-- ===== src/Http2.antt =====
-- JKYi/http2: header compression and frames.
pub mod StaticTable
pub mod DynamicTable
pub mod Hpack
pub mod Frame
