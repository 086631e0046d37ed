-- ===== src/Serialization.antt =====
-- The serialization framework: streams, the serializers of each kind of type, messages.
pub mod Stream
pub mod Puts
pub mod Serializer
pub mod Scalars
pub mod Strings
pub mod Elements
pub mod Vectors
pub mod Arrays
pub mod VectorCodecs
pub mod MemoryCodecs
pub mod Interface
pub mod Message
pub mod Buffers
pub mod MessageLaws
pub mod RoundTrip
pub mod Fields
mod FieldCodecs
mod Tests
