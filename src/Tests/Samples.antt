-- ===== src/Tests/Samples.antt =====
-- The sample data of the tests.
use kxco_post_quantum.Prelude.{
  ℕ, zero, suc, refl, true, false, [], Option, none, some, replicate, All, Bytes, IsByte, arith, ap,
}
use kxco_post_quantum.Codec.Base64.{Runtime, BufferLaws, base64url, from_b64url}
use kxco_post_quantum.Codec.Base64.RoundTrip.{from_b64url_browser}
use kxco_post_quantum.Seed.Params.{params}
use kxco_post_quantum.Seed.Keys.{Keygen}

pub replicate-IsByte : (n x : ℕ) → IsByte x → All IsByte (replicate n x)
replicate-IsByte zero x h = tt
replicate-IsByte (suc n) x h = (h, replicate-IsByte n x h)

abbrev pub seed32 : Bytes
seed32 = replicate 32 7

pub seed32-IsByte : All IsByte seed32
seed32-IsByte = replicate-IsByte 32 7 (omega arith)

-- A browser, and a runtime whose `Buffer` reads as the browser path does.
abbrev pub browser : Runtime
browser = record {
  has_buffer = false;
  buffer_to_base64url = base64url;
  buffer_from_base64url = λ s. [];
}

abbrev pub or_empty : Option Bytes → Bytes
or_empty none = []
or_empty (some bs) = bs

abbrev pub node : Runtime
node = record {
  has_buffer = true;
  buffer_to_base64url = base64url;
  buffer_from_base64url = λ s. or_empty (from_b64url browser s);
}

pub node-BufferLaws : BufferLaws node
node-BufferLaws = record {
  writes = λ bs h. refl;
  reads = λ bs h. ap or_empty (from_b64url_browser browser bs refl h);
}

-- Keys of the right lengths, whose bytes are all the same.
abbrev pub keygen : Keygen
keygen p seed = record {
  public_key = replicate (params p).public_key_bytes 5;
  secret_key = replicate (params p).secret_key_bytes 6;
}
