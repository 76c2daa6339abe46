-- ===== src/Tests.antt =====
-- The theorems at concrete inputs, and runs of the definitions.
mod Parsing
mod Checking
mod Pruning
mod Printing
mod Serving
mod Running
mod Exporting
mod Tools
mod Commands
mod Generating
