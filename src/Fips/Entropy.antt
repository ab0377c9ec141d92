-- ===== src/Fips/Entropy.antt =====
-- src/fips/entropy.js: `getEntropy`. What the device gives to each read is a list of chunks.
use kxco_post_quantum.Prelude.{
  ℕ, ◌-◌, ◌≤◌, ◌≡◌, List, [], ◌∷◌, ◌++◌, Option, none, some, arith, ltb, ◌==◌, if◌then◌else◌,
  length, length-append, length-take, take, Bytes,
}

-- The loop `while (filled < length)`. A read that gives no byte, and a device that ends, throw;
-- a read gives no more than it was asked for.
unfoldable pub read_loop : ℕ → Bytes → List Bytes → Option Bytes × List Bytes
read_loop n out [] = (if ltb (length out) n then none else some out, [])
read_loop n out (chunk ∷ chunks) =
    let part = take (n - length out) chunk in
    let rest = read_loop n (out ++ part) chunks in
    if ltb (length out) n
    then if length part == 0 then (none, chunks) else rest
    else (some out, chunk ∷ chunks)

unfoldable pub get_entropy : ℕ → List Bytes → Option Bytes × List Bytes
unfolding read_loop
get_entropy n chunks = read_loop n [] chunks

read_loop-length :
    (n : ℕ) (out : Bytes) (chunks : List Bytes) (bytes : Bytes)
    → length out ≤ n
    → (read_loop n out chunks).0 ≡ some bytes
    → length bytes ≡ n
unfolding read_loop
read_loop-length n out [] bytes h e = ground arith
read_loop-length n out (chunk ∷ chunks) bytes h e =
    let part : Bytes = take (n - length out) chunk in
    ground (
      arith,
      length-append out part,
      length-take (n - length out) chunk,
      read_loop-length n (out ++ part) chunks bytes,
    )

-- What is returned has exactly the length that was asked for, however the reads were cut.
pub get_entropy-length :
    (n : ℕ) (chunks : List Bytes) (bytes : Bytes)
    → (get_entropy n chunks).0 ≡ some bytes
    → length bytes ≡ n
unfolding get_entropy
get_entropy-length n chunks bytes e = read_loop-length n [] chunks bytes (omega arith) e
