-- ===== src/Tests.antt =====
-- Sample data, runs of the definitions, and the theorems at concrete inputs.
pub mod Samples
pub mod Codecs
pub mod Logs
pub mod Files
pub mod Policies
pub mod EventTrips
pub mod Reads
pub mod Tails
pub mod Rings
pub mod Catalogs
pub mod Groups
pub mod Handles
