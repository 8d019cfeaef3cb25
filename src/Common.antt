-- ===== src/Common.antt =====
-- The shared helpers of common/ and core/: paddings, ciphers, hashes, ids, links, pools, caches and the RabbitMQ producer.
pub mod Padding
pub mod Pool
pub mod Rabbit
pub mod Cache
pub mod Aes
pub mod Agents
pub mod Ids
pub mod Links
pub mod Fnv
pub mod Shards
