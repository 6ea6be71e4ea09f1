-- ===== src/Utils/Codec.antt =====
-- The text codecs of server/src/utils.c.
pub mod Hex
pub mod Url
pub mod Json
