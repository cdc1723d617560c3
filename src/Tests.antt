-- ===== src/Tests.antt =====
-- Concrete worlds, test runs, and the theorems at concrete inputs.
pub mod World
pub mod Ordered
pub mod ConfigClaims
pub mod ApiClaims
pub mod FolderClaims
pub mod LauncherClaims
pub mod HttpRuns
pub mod HttpClaims
pub mod CoreClaims
pub mod WsClaims
pub mod RunClaims
