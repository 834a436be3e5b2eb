-- ===== src/Tests.antt =====
-- Runs of the development on concrete inputs.
mod Wire
mod WireBack
mod Instances
mod Serving
mod Advertising
mod Devices
mod Channel
mod Composing
mod Running
mod Conversing
mod Starting
mod Delivering
mod Proxying
