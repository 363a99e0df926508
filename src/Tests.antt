-- ===== src/Tests.antt =====
-- Runs of the definitions at concrete inputs, and each theorem applied at one.
mod Routing
mod Sorting
mod Caching
mod Cascades
mod Filtering
mod Proxying
mod Agents
mod Timeouts
mod Messaging
mod Configuring
mod Running
mod Sessions
mod Encoding
mod Recalling
mod Sockets
mod Registering
mod Connecting
