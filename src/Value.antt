-- ===== src/Value.antt =====
-- The JavaScript values that the exported functions are given, as far as the code tells them
-- apart, and the coercions that src/seed.js and src/webhook.js make of them.
use kxco_post_quantum.Prelude.{
  ℕ, ◌%◌, Bool, true, false, List, [], map, Text, text_eq, Bytes, Result, ok, err,
}

-- `u8` is a Uint8Array (a Buffer is one). `typed_array` is another typed array, by its elements
-- as integers; `object` any other object. `falsy` is 0, NaN, 0n or false, `primitive` any other
-- number, bigint or boolean, or a symbol.
pub data Value : Type 0 where
  u8 : Bytes → Value
  array_buffer : Bytes → Value
  typed_array : List ℕ → Value
  data_view : Bytes → Value
  text : Text → Value
  undefined null object falsy primitive : Value

pub data NotBytes : Type 0 where
  not_bytes : NotBytes

-- `Uint8Array.from`, and `new Uint8Array` of an array: each element keeps its low eight bits.
abbrev pub uint8_from : List ℕ → Bytes
uint8_from xs = map (λ x. x % 256) xs

-- `asBytes`. A DataView has no elements, so `new Uint8Array(view)` is empty.
unfoldable pub as_bytes : Value → Result NotBytes Bytes
as_bytes (u8 bs) = ok bs
as_bytes (array_buffer bs) = ok bs
as_bytes (typed_array xs) = ok (uint8_from xs)
as_bytes (data_view bs) = ok []
as_bytes _ = err not_bytes

-- `value === undefined || value === null`
abbrev pub is_nullish : Value → Bool
is_nullish undefined = true
is_nullish null = true
is_nullish _ = false

-- Whether a value passes an `if`.
abbrev pub is_truthy : Value → Bool
is_truthy undefined = false
is_truthy null = false
is_truthy falsy = false
is_truthy (text []) = false
is_truthy _ = true

-- `v === s` for a string `s`.
abbrev pub is_text : Text → Value → Bool
is_text s (text t) = text_eq t s
is_text s _ = false
