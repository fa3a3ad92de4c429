-- ===== src/Loaders.antt =====
-- pkg/kfconfig/loaders: reading and writing the file of a KfDef. The types of the versions v1 and
-- v1beta1, and their converters, are the same text but for the package's name.
pub mod Types
pub mod Accessors
pub mod Convert
pub mod Files
pub mod Versions
mod Tests
