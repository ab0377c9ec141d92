-- ===== src/Codec/Utf8/Decode/Units.antt =====
-- What the UTF-8 decoder makes of bytes is code units.
use kxco_post_quantum.Prelude.{
  ℕ, zero, suc, ◌+◌, ◌*◌, ◌%◌, ◌<◌, Bool, true, false, ◌&&◌, Bool-cases, inl, inr, [], ◌∷◌, Option,
  none, some, ltb, leb, if◌then◌else◌, arith, All, All-append, Text, Bytes, IsByte,
}
use kxco_post_quantum.Json.Quote.Laws.{IsUnit}
use kxco_post_quantum.Codec.Utf8.Decode.{
  Waiting, units, decode_first, decode_next, decode_step, decode_from,
}

-- The bits so far leave room for the bytes that are wanted.
abbrev PointFits : (more point : ℕ) → Type 0
PointFits zero p = p < 0x10000
PointFits (suc zero) p = p < 0x400
PointFits (suc (suc zero)) p = p < 0x10
PointFits (suc (suc (suc more))) p = ⊥

abbrev WaitingFits : Option Waiting → Type 0
WaitingFits none = Unit {0}
WaitingFits (some w) = PointFits w.more w.point

abbrev StepFits : Text × Option Waiting → Type 0
StepFits r = All IsUnit r.0 × WaitingFits r.1

either :
    (b : Bool) (x y : Text × Option Waiting)
    → StepFits x
    → StepFits y
    → StepFits (if b then x else y)
either true x y hx hy = hx
either false x y hx hy = hy

decode_first-StepFits : (b : ℕ) → IsByte b → StepFits (decode_first b)
unfolding decode_first
decode_first-StepFits b h =
    either (ltb b 0x80) _ _ ((omega arith, tt), tt)
      (either (leb 0xc2 b && leb b 0xdf) _ _ (tt, omega arith)
        (either (leb 0xe0 b && leb b 0xef) _ _ (tt, omega arith)
          (either (leb 0xf0 b && leb b 0xf4) _ _ (tt, omega arith) ((omega arith, tt), tt))))

units-IsUnit : (c : ℕ) → c < 0x400000 → All IsUnit (units c)
units-IsUnit c h = elim (Bool-cases (ltb c 0x10000)) [
  | inl e ↦ rw e (ground arith)
  | inr e ↦ rw e (omega arith, (omega arith, tt))
]

decode_next-StepFits :
    (more point b : ℕ) → PointFits more point → StepFits (decode_next more (point * 64 + b % 64))
decode_next-StepFits zero p b h = (units-IsUnit (p * 64 + b % 64) (omega arith), tt)
decode_next-StepFits (suc zero) p b h = (tt, omega arith)
decode_next-StepFits (suc (suc zero)) p b h = (tt, omega arith)
decode_next-StepFits (suc (suc (suc more))) p b h = absurd h

decode_step-StepFits :
    (p : Option Waiting) (b : ℕ) → WaitingFits p → IsByte b → StepFits (decode_step p b)
unfolding decode_step
decode_step-StepFits none b h k = decode_first-StepFits b k
decode_step-StepFits (some w) b h k =
    let (out, waiting) = decode_first-StepFits b k in
    either (leb w.lower b && leb b w.upper) _ _ (decode_next-StepFits w.more w.point b h)
      ((omega arith, out), waiting)

decode_from-fits :
    (p : Option Waiting) (bs : Bytes)
    → WaitingFits p
    → All IsByte bs
    → All IsUnit (decode_from p bs)
unfolding decode_from
decode_from-fits none [] h hs = tt
decode_from-fits (some w) [] h hs = (omega arith, tt)
decode_from-fits p (b ∷ bs) h (hb, hs) =
    let (out, waiting) = decode_step-StepFits p b h hb in
    All-append IsUnit (decode_step p b).0 (decode_from (decode_step p b).1 bs) out
      (decode_from-fits (decode_step p b).1 bs waiting hs)

pub decode_from-units : (bs : Bytes) → All IsByte bs → All IsUnit (decode_from none bs)
decode_from-units bs h = decode_from-fits none bs tt h
