-- ===== src/Config/Limits.antt =====
-- What validated settings promise the parts that read them (src/config.rs, `validate`).
use divine_push_service.Prelude.{
  ℕ, ◌+◌, ◌*◌, ◌≤◌, ◌<◌, ◌≡◌, ◌||◌, String, true, false, none, List, [], ◌∷◌, arith, All, ltb, leb,
}
use divine_push_service.Prelude.Int.{ℤ}
use divine_push_service.Coalesce.{emitted_key_ttl, u64_max}
use divine_push_service.Delivery.{in_quiet_hours, local_hour}
use divine_push_service.Config.{
  Settings, validate_settings, is_invalid_delivery, first_zero, must_be_positive, check_lifetimes,
}

first_zero-none :
    (l : List (String × ℕ)) → first_zero l ≡ none → All (λ (e : String × ℕ). 0 < e.1) l
unfolding first_zero
first_zero-none [] h = tt
first_zero-none ((name, value) ∷ fields) h = (ground arith, first_zero-none fields (ground arith))

-- What each part of the checks found.
passed :
    (c : Settings)
    → validate_settings c ≡ none
    → (is_invalid_delivery c.service.delivery ≡ false)
      × (first_zero (must_be_positive c) ≡ none)
      × (check_lifetimes c ≡ none)
unfolding validate_settings
passed c h = ground arith

delivery_bounds :
    (c : Settings)
    → is_invalid_delivery c.service.delivery ≡ false
    → let d = c.service.delivery in
      (d.quiet_start_hour ≤ 21) × (7 ≤ d.quiet_end_hour) × (d.quiet_end_hour < d.quiet_start_hour)
unfolding is_invalid_delivery
delivery_bounds c h = ground arith

-- Under validated settings every hour from 21:00 to 07:00 of a device's clock is quiet, for every
-- offset and time.
pub quiet_at_night :
    (c : Settings) (offset now : ℤ)
    → validate_settings c ≡ none
    → (leb 21 (local_hour offset now) || ltb (local_hour offset now) 7) ≡ true
    → in_quiet_hours offset now c.service.delivery ≡ true
unfolding in_quiet_hours
quiet_at_night c offset now valid night = ground (arith, delivery_bounds c (passed c valid).0)

-- Validated settings have what coalescing and the recipient's budget divide by or live by: a
-- positive window, refill time, capacity and cap, and a positive lifetime of the emission window.
pub validated_budget :
    (c : Settings)
    → validate_settings c ≡ none
    → let s = c.service.coalescing in
      (0 < s.coalesce_window_secs)
      × (0 < s.recipient_throttle_refill_secs)
      × (0 < s.recipient_throttle_capacity)
      × (0 < s.recipient_daily_cap)
      × (0 < emitted_key_ttl s)
unfolding emitted_key_ttl
validated_budget c valid =
    let p = first_zero-none (must_be_positive c) (passed c valid).1 in omega (arith, p)

-- Under validated settings whose sums and products fit in a u64, a group's lifetime is longer than
-- the window and a lease together, and a lease is longer than two flush timeouts.
pub validated_lease :
    (c : Settings)
    → validate_settings c ≡ none
    → c.service.coalescing.coalesce_window_secs + c.service.coalesce_lease_secs ≤ u64_max
    → c.service.coalesce_flush_timeout_secs * 2 ≤ u64_max
    → (c.service.coalescing.coalesce_window_secs + c.service.coalesce_lease_secs
        < c.service.coalescing.coalesce_group_ttl_secs)
      × (c.service.coalesce_flush_timeout_secs * 2 < c.service.coalesce_lease_secs)
unfolding check_lifetimes
validated_lease c valid sum twice = let q = (passed c valid).2 in ground (arith, q)
