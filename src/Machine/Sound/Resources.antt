-- ===== src/Machine/Sound/Resources.antt =====
-- The places of resources.
use lobaro_coap.Machine.Sound.{handled, flag, is_some}
use mathlib.Core.Option.{some-injective}
use lobaro_coap.Common.{ℕ, zero, suc, ◌≡◌, true, List, [], ◌∷◌, some, length, ltb, arith}
use lobaro_coap.Resource.{Resource, resource_at}

pub resource_at-length :
    (rs : List Resource) (i : ℕ) (r : Resource)
    → resource_at rs i ≡ some r
    → ltb i (length (handled rs)) ≡ true
unfolding resource_at
resource_at-length [] i r e = absurd (cc e)
resource_at-length (x ∷ xs) zero r e = ground arith
resource_at-length (x ∷ xs) (suc i) r e = ground (arith, resource_at-length xs i r e)

pub resource_at-flag :
    (rs : List Resource) (i : ℕ) (r : Resource)
    → resource_at rs i ≡ some r
    → is_some r.handler ≡ true
    → flag (handled rs) i ≡ true
unfolding resource_at
resource_at-flag [] i r e h = absurd (cc e)
resource_at-flag (x ∷ xs) zero r e h = rw (some-injective x r e) h
resource_at-flag (x ∷ xs) (suc i) r e h = resource_at-flag xs i r e h
