-- ===== src/Converters.antt =====
-- The package internal/sdkprovider/userconfig/converters: user configs from Terraform to the API and back.
pub mod Values
pub mod Flatten
pub mod Expand
pub mod Typed
pub mod Flattened
pub mod RoundTrip
pub mod Rename
pub mod UserConfig
pub mod Renaming
pub mod Purge
mod Tests
