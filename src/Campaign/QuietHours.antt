-- ===== src/Campaign/QuietHours.antt =====
-- When the quiet hours of a device end (src/campaign_delivery.rs, `quiet_hours_retry_after`).
use divine_push_service.Prelude.{
  ℕ, ◌+◌, ◌-◌, ◌*◌, ◌/◌, ◌%◌, ◌<◌, ◌≡◌, refl, Bool, true, false, ◌&&◌, ◌||◌, arith, ltb, leb,
  if◌then◌else◌,
}
use divine_push_service.Prelude.Int.{ℤ, pos, ◌+ℤ◌, scale, rem_euclid, sub_ℕ}
use divine_push_service.Budget.{DeliverySettings}
use divine_push_service.Delivery.{in_quiet_hours, local_hour}
use divine_push_service.Campaign.{until_end}

-- The second of the device's day.
abbrev second_of_day : ℤ → ℤ → ℕ
second_of_day offset now = rem_euclid (now +ℤ scale 60 offset) 86400

second_of_day_later :
    (offset now : ℤ) (k : ℕ)
    → second_of_day offset (now +ℤ pos k) ≡ (second_of_day offset now + k) % 86400
unfolding ◌+ℤ◌ scale rem_euclid
second_of_day_later offset now k = ground arith

second_of_day-lt : (offset now : ℤ) → second_of_day offset now < 86400
unfolding rem_euclid
second_of_day-lt offset now = ground arith

-- The same on the clock alone.
abbrev is_quiet_second : ℕ → ℕ → ℕ → Bool
is_quiet_second start end t =
    if ltb end start
    then leb start (t / 3600) || ltb (t / 3600) end
    else leb start (t / 3600) && ltb (t / 3600) end

abbrev left : ℕ → ℕ → ℕ
left end t = (end * 3600 + 86400 - t) % 86400

quiet_until :
    (start end t k : ℕ)
    → start < 24
    → end < 24
    → t < 86400
    → is_quiet_second start end t ≡ true
    → k < left end t
    → is_quiet_second start end ((t + k) % 86400) ≡ true
quiet_until start end t k p q r h early = ground arith

awake_then :
    (start end t : ℕ)
    → start < 24
    → end < 24
    → t < 86400
    → is_quiet_second start end ((t + left end t) % 86400) ≡ false
awake_then start end t p q r = ground arith

rem_euclid-sub_ℕ : (a b : ℕ) → b < 86400 → rem_euclid (sub_ℕ a b) 86400 ≡ (a + 86400 - b) % 86400
unfolding rem_euclid
rem_euclid-sub_ℕ a b h = ground arith

until_end-left :
    (offset now : ℤ) (s : DeliverySettings)
    → until_end offset now s ≡ left s.quiet_end_hour (second_of_day offset now)
unfolding until_end
until_end-left offset now s =
    rem_euclid-sub_ℕ (s.quiet_end_hour * 3600) (second_of_day offset now)
      (second_of_day-lt offset now)

in_quiet_hours-later :
    (offset now : ℤ) (k : ℕ) (s : DeliverySettings)
    → in_quiet_hours offset (now +ℤ pos k) s
      ≡ is_quiet_second s.quiet_start_hour s.quiet_end_hour ((second_of_day offset now + k) % 86400)
unfolding in_quiet_hours local_hour
in_quiet_hours-later offset now k s = rw (second_of_day_later offset now k) refl

in_quiet_hours-now :
    (offset now : ℤ) (s : DeliverySettings)
    → in_quiet_hours offset now s
      ≡ is_quiet_second s.quiet_start_hour s.quiet_end_hour (second_of_day offset now)
unfolding in_quiet_hours local_hour
in_quiet_hours-now offset now s = refl

-- From a quiet time, a device stays quiet until the time that the campaign tool is told to retry
-- at, and is awake then, if the quiet hours start and end at hours of the day.
pub quiet_hours_end :
    (offset now : ℤ) (s : DeliverySettings)
    → s.quiet_start_hour < 24
    → s.quiet_end_hour < 24
    → in_quiet_hours offset now s ≡ true
    → (in_quiet_hours offset (now +ℤ pos (until_end offset now s)) s ≡ false)
      × ((k : ℕ) → k < until_end offset now s → in_quiet_hours offset (now +ℤ pos k) s ≡ true)
quiet_hours_end offset now s p q quiet =
    let t = second_of_day offset now in
    (
      rw (in_quiet_hours-later offset now (until_end offset now s) s, until_end-left offset now s)
          (awake_then s.quiet_start_hour s.quiet_end_hour t p q (second_of_day-lt offset now)),
      λ k early. rw (in_quiet_hours-later offset now k s) (
          quiet_until s.quiet_start_hour s.quiet_end_hour t k p q (second_of_day-lt offset now)
            (rw (← in_quiet_hours-now offset now s) quiet)
            (rw (← until_end-left offset now s) early)),
    )
