-- ===== src/PrintJob.antt =====
-- bambu-farm-client/cpp/print_job.cpp: the names, paths and JSON commands of a print job.
mod Tests
pub mod Ascii
pub mod Escape
pub mod Names
pub mod Hash
pub mod Resolve
pub mod Command
