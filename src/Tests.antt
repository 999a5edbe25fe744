-- ===== src/Tests.antt =====
-- Runs of the modelled code at concrete inputs, and instances of the theorems.
mod Headers
mod Fields
mod Counts
mod OldFiles
mod NewFiles
mod Emitted
mod Debug
mod Decoding
mod Scanning
mod Shapes
mod Merging
mod Overlaps
mod Graphs
mod Lines
mod DebugFile
mod Bodies
