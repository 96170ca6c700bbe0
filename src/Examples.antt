-- ===== src/Examples.antt =====
-- The theorems at concrete inputs: runs of the code of src/ on small data.
mod Delivery
mod Detection
mod Fields
mod Formats
mod Captures
mod Connections
mod Inputs
mod Pictures
mod Queues
mod Settings
mod Streams
