-- ===== src/Examples.antt =====
-- The theorems at concrete inputs, and runs of the definitions.
mod Coordinator
mod Loops
mod Admission
mod Pattern
mod Limits
mod Envelope
mod Json
mod Reducer
mod Stream
mod Locks
mod Sessions
mod Config
mod Cursor
mod Sse
