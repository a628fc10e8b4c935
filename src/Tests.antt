-- ===== src/Tests.antt =====
-- The theorems at concrete inputs.
mod Tables
mod Names
mod Attributes
mod Messages
mod Headers
mod Setting
mod Programs
mod Segments
mod Packets
mod Captures
