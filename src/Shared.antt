-- ===== src/Shared.antt =====
-- crates/shared: what a build says of itself in the directory `nix-support` of its outputs.
pub mod Product
pub mod NixSupport
