-- ===== src/Time.antt =====
-- Times in seconds, as the 32-bit counts of the application's rtc1HzCnt, and timeAfter of
-- src/coap.h.
pub mod Window
use lobaro_coap.Common.{ℕ, ◌+◌, ◌%◌, ◌^◌, Bool, ◌||◌, ltb, leb}

abbrev pub u32 : ℕ → ℕ
u32 n = n % 2 ^ 32

-- The value of a 32-bit count as an int32_t, moved up by 2^31.
abbrev pub moved_up : ℕ → ℕ
moved_up n = u32 (n + 2 ^ 31)

-- Whether the int32_t subtraction of timeAfter overflows, which the C language leaves undefined.
unfoldable pub overflows : ℕ → ℕ → Bool
overflows a b = leb (moved_up b + 2 ^ 31) (moved_up a) || ltb (moved_up a + 2 ^ 31) (moved_up b)

-- timeAfter: whether the difference of the two times, as int32_t, is not negative. Where the
-- subtraction overflows, this is the sign of the exact difference, which is what an optimising
-- compiler's signed comparison decides.
unfoldable pub time_after : ℕ → ℕ → Bool
time_after a b = leb (moved_up b) (moved_up a)
