-- ===== src/Utils.antt =====
-- server/src/utils.c
pub mod RingBuffer
pub mod StringBuilder
pub mod Codec
pub mod HashTable
pub mod Paths
pub mod Strings
pub mod LinkedList
pub mod Config
