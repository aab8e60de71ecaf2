-- ===== src/Tests.antt =====
-- Runs of the definitions on concrete inputs, and the theorems at inputs that meet their hypotheses.
mod PatchTests
mod BulkTests
mod CursorTests
mod FilterTests
mod ResponseTests
mod GroupTests
mod DeferredTests
mod AuthTests
