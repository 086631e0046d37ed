-- ===== src/Serialization/Fields.antt =====
-- The types that the framework serialises by itself, and which serializer the traits of
-- message_transport_traits.h select for each. Vectors and arrays of vectors or arrays do not compile, as
-- `serializationLength(*it)` selects the default serializer for the inner one, and a vector of `bool`
-- cannot be read.
use message_transport.Common.{ℕ, Bool, true, false, List, [], if◌then◌else◌}
use message_transport.Serialization.Serializer.{Serializer}
use message_transport.Serialization.Scalars.{Scalar, simple, boolean}
use message_transport.Serialization.Strings.{string}
use message_transport.Serialization.Vectors.{vector, fixed_vector, simple_vector}
use message_transport.Serialization.Arrays.{array, fixed_array, simple_array}

-- An arithmetic type, `bool` or `std::string`.
pub data Element : Type 0 where
  scalar : Scalar → Element
  bool : Element
  text : Element

-- The elements of a `std::vector` that can be read.
pub data Item : Type 0 where
  scalars : Scalar → Item
  texts : Item

-- One of these types, a `std::vector` or a `boost::array` of them.
pub data Field : Type 0 where
  single : Element → Field
  vector_of : Item → Field
  array_of : ℕ → Element → Field

abbrev pub ElementValue : Element → Type 0
ElementValue (scalar t) = ℕ
ElementValue bool = Bool
ElementValue text = List ℕ

abbrev pub ItemValue : Item → Type 0
ItemValue (scalars t) = ℕ
ItemValue texts = List ℕ

abbrev pub FieldValue : Field → Type 0
FieldValue (single e) = ElementValue e
FieldValue (vector_of i) = List (ItemValue i)
FieldValue (array_of n e) = List (ElementValue e)

-- `IsSimple`, a trait of the arithmetic types of the macro's list.
unfoldable pub is_simple : Element → Bool
is_simple (scalar t) = true
is_simple bool = false
is_simple text = false

-- `IsFixedSize`, which `bool` has too.
unfoldable pub is_fixed_size : Element → Bool
is_fixed_size (scalar t) = true
is_fixed_size bool = true
is_fixed_size text = false

-- `VectorSerializer<T>`, with the value-initialised element that `resize` fills in. Only the arithmetic
-- types can have `IsSimple`.
unfoldable pub vector_serializer : (i : Item) → Serializer (List (ItemValue i))
vector_serializer (scalars t) =
    if is_simple (scalar t)
    then simple_vector t
    else if is_fixed_size (scalar t)
    then fixed_vector (simple t) 0
    else vector (simple t) 0
vector_serializer texts = if is_fixed_size text then fixed_vector string [] else vector string []

-- `ArraySerializer<T, N>`
unfoldable pub array_serializer : ℕ → (e : Element) → Serializer (List (ElementValue e))
array_serializer n (scalar t) =
    if is_simple (scalar t)
    then simple_array t n
    else if is_fixed_size (scalar t)
    then fixed_array (simple t) n
    else array (simple t) n
array_serializer n bool = if is_fixed_size bool then fixed_array boolean n else array boolean n
array_serializer n text = if is_fixed_size text then fixed_array string n else array string n

unfoldable pub serializer : (f : Field) → Serializer (FieldValue f)
serializer (single (scalar t)) = simple t
serializer (single bool) = boolean
serializer (single text) = string
serializer (vector_of i) = vector_serializer i
serializer (array_of n e) = array_serializer n e
