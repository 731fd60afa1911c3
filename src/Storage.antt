-- ===== src/Storage.antt =====
-- Data items of a COBOL program and the storage of its groups: engine/transformation/ir.py,
-- figurative.py and group_storage.py. Names and values are ASCII texts, as lists of codes.
pub mod Item
pub mod Figurative
pub mod Layout
pub mod Move
pub mod Redefines
