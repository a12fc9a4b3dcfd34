-- ===== src/Tests.antt =====
-- The theorems at concrete inputs, by part of the program.
mod Streams
mod Requests
mod Others
mod Sharpness
mod Starting
mod Inputs
mod Threads
mod Controls
