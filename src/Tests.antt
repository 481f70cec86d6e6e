-- ===== src/Tests.antt =====
-- Runs of the theorems on small inputs: a frame of the server, a path, a queue, the listeners.
mod Frames
mod Payloads
mod Events
mod Scheduling
mod Routes
mod Bus
mod Sensors
mod Managing
mod Downloads
mod Driving
mod Vehicles
mod Moving
