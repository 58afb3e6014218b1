-- ===== src/Time/Window.antt =====
-- What timeAfter decides for near times, and where its subtraction overflows.
use lobaro_coap.Common.{
  ℕ, ◌+◌, ◌/◌, ◌^◌, ◌<◌, ◌≡◌, ◌⊎◌, Bool-cases, ◌==◌, true, false, ltb, leb, inl, inr, arith,
}
use lobaro_coap.Time.{u32, overflows, time_after}

-- The stretch of 2^32 seconds between two changes of the sign of the clock as an int32_t.
abbrev pub stretch : ℕ → ℕ
stretch n = (n + 2 ^ 31) / 2 ^ 32

-- For two times that lie less than 2^31 seconds apart: where the clock's sign as an int32_t does
-- not turn negative between them, the subtraction of timeAfter does not overflow and timeAfter
-- decides whether the first is not before the second, also where the clock wraps around to 0
-- between them; where it does, the subtraction overflows, and the sign of the exact difference says
-- the opposite.
pub time_after-stretch :
    (a b : ℕ)
    → a < b + 2 ^ 31
    → b < a + 2 ^ 31
    → ((stretch a ≡ stretch b)
        × ((overflows (u32 a) (u32 b) ≡ false) × (time_after (u32 a) (u32 b) ≡ leb b a)))
      ⊎ ((¬ (stretch a ≡ stretch b))
          × ((overflows (u32 a) (u32 b) ≡ true) × (time_after (u32 a) (u32 b) ≡ ltb a b)))
unfolding time_after overflows
time_after-stretch a b near near' = elim (Bool-cases (stretch a == stretch b)) [
  | inl same ↦
      let together : stretch a ≡ stretch b = ground (arith, same) in
      inl (together, (ground (arith, near, near', together), ground (arith, near, near', together)))
  | inr other ↦
      let apart : ¬ (stretch a ≡ stretch b) = ground (arith, other) in
      inr (apart, (ground (arith, near, near', apart), ground (arith, near, near', apart)))
]
