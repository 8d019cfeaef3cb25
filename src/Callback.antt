-- ===== src/Callback.antt =====
-- The upload pipeline that service/juliang.go, honor.go, gdt.go, uc.go and ks.go share.
pub mod Http
pub mod Group
pub mod Click
pub mod Process
pub mod Upload
