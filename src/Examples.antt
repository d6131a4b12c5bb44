-- ===== src/Examples.antt =====
-- Runs at concrete inputs: the theorems of the development applied, and tests of the definitions.
pub mod Calls
pub mod Server
pub mod Events
pub mod Race
pub mod Logging
pub mod Acceptor
pub mod Failing
pub mod Errors
pub mod Printer
pub mod Rendering
pub mod Formatting
pub mod Starting
pub mod Destinations
pub mod Dealing
pub mod Serving
