-- ===== src/Outbound.antt =====
-- The package services/outboundlinks.
pub mod Hrefs
pub mod Anchors
pub mod Bodies
pub mod RoundTrip
pub mod Walks
pub mod ReadBack
