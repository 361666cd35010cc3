-- ===== src/Store.antt =====
-- internal/repository/routing: the stored mihomo configs.
pub mod Tables
pub mod Order
pub mod Rows
pub mod Refs
pub mod Forest
pub mod Reload
pub mod Rules
pub mod Members
pub mod Groups
pub mod Saved
pub mod Providers
pub mod Roundtrip
pub mod Frame
pub mod Fits
pub mod Names
pub mod Succeeds
pub mod Consistent
pub mod Clean
pub mod Save
pub mod Load
pub mod Clone
pub mod Copied
pub mod Uncopied
pub mod Carried
pub mod Copies
pub mod Cloned
pub mod Copy
