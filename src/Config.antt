-- ===== src/Config.antt =====
-- config/: city profiles, and the provider that a profile names.
pub mod Yaml
pub mod Profile
pub mod Composition
