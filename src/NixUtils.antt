-- ===== src/NixUtils.antt =====
-- crates/nix-utils: store paths and derivations.
pub mod StorePath
pub mod Derivation
