-- ===== src/Tests.antt =====
-- Concrete runs of the model, and the theorems at concrete inputs.
mod Samples
mod Table
mod Urbs
mod Control
mod Service
mod Driving
mod Userspace
mod Clients
