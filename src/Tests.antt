-- ===== src/Tests.antt =====
-- Runs of the models and the theorems at concrete inputs.
mod Packets
mod NetTests
mod BootTests
mod Example20Tests
mod Example25Tests
mod DeviceTreeTests
mod ConsoleTests
mod XosTests
mod KernelTests
mod TrapTests
mod GfxTests
mod HostTests
mod LinkTests
mod ThreadsTests
mod PreemptTests
