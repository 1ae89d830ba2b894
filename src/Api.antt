-- ===== src/Api.antt =====
-- api/addon/v1alpha1/addon_types.go: the types, and the methods of `Addon` and of its phases.
pub mod Phase
pub mod Spec
pub mod Checksum
pub mod Addon
pub mod Status
pub mod StatusLaws
pub mod Flex
