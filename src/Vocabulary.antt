-- ===== src/Vocabulary.antt =====
-- The vocabulary of the tool framework: src/acop/models/tool_vocabulary.py, and the enumerations
-- of src/acop/models/provenance.py and src/acop/auth/principal.py that it builds on.
-- A `StrEnum` is a data type, and its `.value` a function into texts.
pub mod States
pub mod Roles
pub mod Reasons
