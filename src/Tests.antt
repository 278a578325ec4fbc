-- ===== src/Tests.antt =====
-- Concrete runs of the models, and the theorems at concrete inputs.
mod Make
mod Util
mod Structured
mod Pattern
mod RmaRange
mod CubedSphere
mod Transport
mod Rma
mod Communication
mod Unstructured
mod Allocator
