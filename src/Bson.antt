-- ===== src/Bson.antt =====
-- src/cpprealm/bson.cpp: values of BSON, documents and the iterators over them.
pub mod Core
pub mod Values
pub mod Documents
pub mod Iterators
mod Tests
