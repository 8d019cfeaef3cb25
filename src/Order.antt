-- ===== src/Order.antt =====
-- The order reports of service/jd_order.go.
pub mod Windows
pub mod Pages
pub mod Bonus
pub mod Client
pub mod Plain
pub mod Export
pub mod Request
