-- ===== src/Examples.antt =====
-- Runs of the program on small inputs.
mod Data
mod Uploading
mod Reading
mod Merging
mod Access
mod Messages
mod Serving
mod Pools
mod Routing
mod Cycles
mod Streaming
mod Logs
mod Clients
mod Fans
