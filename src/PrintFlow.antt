-- ===== src/PrintFlow.antt =====
-- bambu-farm-client/cpp/print_flow.cpp: the three ways to hand a job to a printer. The callbacks of
-- the caller and of `PrintFlowDeps` are the environment: what they answer may depend on everything
-- that happened before. What the flow does is the list of calls that it makes, oldest first.
mod Tests
pub mod Calls
pub mod Local
pub mod Upload
pub mod Sdcard
