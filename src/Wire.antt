-- ===== src/Wire.antt =====
-- Bytes in the words of a message, four to a word, the lowest first, as the drivers' clients and
-- servers pack and unpack them.
pub mod Bytes
pub mod Pack
