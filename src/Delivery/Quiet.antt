-- ===== src/Delivery/Quiet.antt =====
-- Quiet hours (src/notification_delivery.rs, `in_quiet_hours`).
use divine_push_service.Prelude.{
  ℕ, ◌+◌, ◌-◌, ◌%◌, ◌<◌, ◌≡◌, ◌&&◌, ◌||◌, arith, ltb, leb, if◌then◌else◌,
}
use divine_push_service.Prelude.Int.{ℤ, pos, negsuc, ◌+ℤ◌, scale, rem_euclid}
use divine_push_service.Budget.{DeliverySettings}
use divine_push_service.Delivery.{in_quiet_hours, local_hour}

rem_euclid-lt : (a : ℤ) → rem_euclid a 86400 < 86400
unfolding rem_euclid
rem_euclid-lt (pos n) = omega arith
rem_euclid-lt (negsuc n) = omega arith

pub local_hour-lt : (offset now : ℤ) → local_hour offset now < 24
unfolding local_hour
local_hour-lt offset now = omega (arith, rem_euclid-lt (now +ℤ scale 60 offset))

circular :
    (h start end : ℕ)
    → h < 24
    → start < 24
    → end < 24
    → (if ltb end start then leb start h || ltb h end else leb start h && ltb h end)
      ≡ ltb ((h + 24 - start) % 24) ((end + 24 - start) % 24)
circular h start end p q r = ground arith

-- Going round the clock from the start of the quiet hours, an hour is quiet if it comes before
-- their end, whether or not they pass midnight; both hours are hours of the day.
pub in_quiet_hours_circular :
    (offset now : ℤ) (s : DeliverySettings)
    → s.quiet_start_hour < 24
    → s.quiet_end_hour < 24
    → in_quiet_hours offset now s
      ≡ ltb
          ((local_hour offset now + 24 - s.quiet_start_hour) % 24)
          ((s.quiet_end_hour + 24 - s.quiet_start_hour) % 24)
unfolding in_quiet_hours
in_quiet_hours_circular offset now s start end =
    circular (local_hour offset now) s.quiet_start_hour s.quiet_end_hour (local_hour-lt offset now)
      start end
