-- ===== src/Region.antt =====
-- common/region/ipparse.go: the region of an address.
pub mod Search
pub mod Load
pub mod Area
