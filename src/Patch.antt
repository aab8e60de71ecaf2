-- ===== src/Patch.antt =====
-- internal/scim/patch.go: PATCH of a user.
pub mod Strict
pub mod Items
pub mod Setters
pub mod Dedup
pub mod Filter
pub mod Multi
pub mod Single
pub mod Enterprise
pub mod Apply
pub mod Kept
