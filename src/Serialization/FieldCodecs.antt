-- ===== src/Serialization/FieldCodecs.antt =====
-- Every one of these types goes through a stream and comes back.
use message_transport.Common.{ℕ, ◌*◌, ◌^◌, ◌<◌, ◌≡◌, List, [], ◌∷◌, length, flatten, All}
use message_transport.Serialization.Serializer.{Serializer, IsCodec}
use message_transport.Serialization.Scalars.{sizeof, scalar_chunks, bool_chunks}
use message_transport.Serialization.Strings.{length_chunk, string_chunks}
use message_transport.Serialization.Elements.{chunks_each}
use message_transport.Serialization.Vectors.{to_memory}
use message_transport.Serialization.MemoryCodecs.{simple_vector_chunks}
use message_transport.Serialization.Fields.{
  Element, scalar, bool, text, scalars, texts, Field, single, vector_of, array_of, ElementValue,
  FieldValue, serializer,
}

-- The wire format: the pieces that are written, in order.
abbrev pub element_pieces : (e : Element) → ElementValue e → List (List ℕ)
element_pieces (scalar t) v = scalar_chunks t v
element_pieces bool v = bool_chunks v
element_pieces text v = string_chunks v

abbrev pub pieces : (f : Field) → FieldValue f → List (List ℕ)
pieces (single e) v = element_pieces e v
pieces (vector_of (scalars t)) v = simple_vector_chunks t v
pieces (vector_of texts) v = length_chunk (length v) ∷ chunks_each string_chunks v
pieces (array_of n (scalar t)) v = to_memory (sizeof t) v ∷ []
pieces (array_of n bool) v = chunks_each bool_chunks v
pieces (array_of n text) v = chunks_each string_chunks v

-- The number of bytes on the wire.
abbrev pub wire_size : (f : Field) → FieldValue f → ℕ
wire_size f v = length (flatten (pieces f v))

-- What a value has to satisfy: bit patterns fit their types, lengths fit uint32_t, and an array has its
-- number of elements.
abbrev pub ElementFit : (e : Element) → ElementValue e → Type 0
ElementFit (scalar t) v = v < 256 ^ sizeof t
ElementFit bool v = Unit
ElementFit text v = length v < 2 ^ 32

abbrev pub Fit : (f : Field) → FieldValue f → Type 0
Fit (single e) v = ElementFit e v
Fit (vector_of (scalars t)) v = (length v * sizeof t < 2 ^ 32) × All (ElementFit (scalar t)) v
Fit (vector_of texts) v = (length v < 2 ^ 32) × All (ElementFit text) v
Fit (array_of n e) v = (length v ≡ n) × All (ElementFit e) v

-- What can be read into: an array has its number of elements.
abbrev pub Fillable : (f : Field) → FieldValue f → Type 0
Fillable (single e) v = Unit
Fillable (vector_of i) v = Unit
Fillable (array_of n e) v = length v ≡ n

-- An array of `bool` has an element, and one of arithmetic values is below 4 GiB.
abbrev pub Sound : Field → Type 0
Sound (single e) = Unit
Sound (vector_of i) = Unit
Sound (array_of n (scalar t)) = n * sizeof t < 2 ^ 32
Sound (array_of n bool) = 0 < n
Sound (array_of n text) = Unit

abbrev Coded : Field → Type 0
Coded f = IsCodec (serializer f) (pieces f) (Fit f) (Fillable f)
