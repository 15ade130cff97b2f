-- ===== src/Manifest.antt =====
-- internal/runtime/plugins/manifest/document.go: the manifest of a plugin.
pub mod Ids
