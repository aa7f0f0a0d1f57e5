-- ===== src/Tests.antt =====
-- Runs of the model on concrete devices, catalogues and answers.
pub mod Manager
pub mod Recovery
pub mod Connections
pub mod Nodes
pub mod Registers
pub mod Files
pub mod Filling
pub mod Values
pub mod Transfers
pub mod Devices
