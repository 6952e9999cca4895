-- ===== src/Codec.antt =====
-- include/common/serialization/serializer.h: byte buffers, machine words in memory and the
-- strings and containers written with a length in front. A reader is given the bytes from
-- `data + offset` on and returns those behind what it read; `none` is a read past the buffer.
pub mod Words
pub mod Containers
pub mod RoundTrip
pub mod Extends
pub mod Decimal
pub mod Equality
pub mod Collections
