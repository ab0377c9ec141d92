-- ===== src/Context.antt =====
-- src/_context.js: `normalizeContext`, the options bag of `sign` and `verify` as a context.
use kxco_post_quantum.Prelude.{
  ℕ, ◌≤◌, ◌<◌, ◌≡◌, Option, none, some, arith, ltb, if◌then◌else◌, length, Bytes, Result, ok, err,
}
use kxco_post_quantum.Value.{Value, u8, text, undefined, null}
use kxco_post_quantum.Codec.Utf8.{utf8}

-- What is passed as `opts`: nothing (or null), a value that is no options object (a string, a
-- number, an array, a Uint8Array), or an object with the member `context`.
pub data Options : Type 0 where
  absent : Options
  bare_value : Options
  options : Value → Options

pub data ContextError : Type 0 where
  not_an_options_object not_bytes_or_string : ContextError
  context_too_long : ℕ → ContextError

abbrev pub max_context_bytes : ℕ
max_context_bytes = 255

-- The end of the function, from the byte form on.
unfoldable pub limit_context : Bytes → Result ContextError (Option Bytes)
limit_context bytes =
    if ltb max_context_bytes (length bytes)
    then err (context_too_long (length bytes))
    else if ltb 0 (length bytes)
    then ok (some bytes)
    else ok none

unfoldable pub normalize_context : Options → Result ContextError (Option Bytes)
unfolding limit_context utf8
normalize_context absent = ok none
normalize_context bare_value = err not_an_options_object
normalize_context (options undefined) = ok none
normalize_context (options null) = ok none
normalize_context (options (u8 bytes)) = limit_context bytes
normalize_context (options (text s)) = limit_context (utf8 s)
normalize_context (options _) = err not_bytes_or_string

limit_context_fits :
    (bytes c : Bytes) → limit_context bytes ≡ ok (some c) → (0 < length c) × (length c ≤ 255)
unfolding limit_context
limit_context_fits bytes c h = ground arith

-- A context that is handed on has 1 to 255 bytes, as FIPS 204 section 5.2 asks.
pub normalize_context_fits :
    (opts : Options) (c : Bytes)
    → normalize_context opts ≡ ok (some c)
    → (0 < length c) × (length c ≤ 255)
unfolding normalize_context
normalize_context_fits absent c h = cc
normalize_context_fits bare_value c h = cc
normalize_context_fits (options undefined) c h = cc
normalize_context_fits (options null) c h = cc
normalize_context_fits (options (u8 bytes)) c h = limit_context_fits bytes c h
normalize_context_fits (options (text s)) c h = limit_context_fits (utf8 s) c h
normalize_context_fits (options _) c h = cc
