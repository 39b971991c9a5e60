-- ===== src/Mapping.antt =====
-- What the mapping of C to Berry offers to native functions,
-- components/berry/berry_mapping/src/be_raisef.c and the insertions of
-- components/berry/berry_mapping/src/be_mapping_utils.c.
pub mod Raise
pub mod Insert
pub mod Inserted
