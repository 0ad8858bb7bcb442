-- ===== src/LocalState.antt =====
-- bambu-farm-client/cpp/local_state.cpp: the files in which the plugin keeps the selected device, the
-- printers' names and the prints that it started. Logging is left out.
mod Tests
pub mod Paths
pub mod Table
pub mod Lines
pub mod Names
pub mod Selected
pub mod Contexts
