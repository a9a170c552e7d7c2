-- ===== src/Tests.antt =====
-- Runs of the definitions on concrete inputs, at which the theorems apply.
mod Requests
mod Proxying
mod Routing
mod Balancing
mod Files
mod Loops
mod System
mod Workers
