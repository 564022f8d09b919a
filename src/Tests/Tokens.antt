-- ===== src/Tests/Tokens.antt =====
-- Device tokens at concrete times.
use divine_push_service.Prelude.{◌≡◌, String, none, some, [], ◌∷◌, refl, arith}
use divine_push_service.Redis.Memory.{memory}
use divine_push_service.Redis.Entries.{find, without, insert}
use divine_push_service.Redis.Members.{listed}
use divine_push_service.Devices.{
  Devices, sweep, read_stale, refresh_token_activity, add_or_update_token,
  add_or_update_token_with_timezone_name,
}
use divine_push_service.Devices.Consistency.{IsConsistent}
use divine_push_service.Devices.Sweep.{sweep_race}
use divine_push_service.Devices.Runs.{
  registers, removes, reaches, sweeps, make_all, make_all-IsConsistent,
}
use divine_push_service.Tests.Campaign.{parsers}

abbrev no_devices : Devices memory listed
no_devices = record {
  user_tokens = λ pubkey. [];
  stale_tokens = ([], tt);
  token_to_pubkey = λ token. none;
  timezone_offsets = λ token. none;
  timezone_names = λ token. none;
}

no_devices-IsConsistent : (t p : String) → IsConsistent memory listed parsers t p no_devices
unfolding find
no_devices-IsConsistent t p = record { owned = refl; tracked = refl; canonical = refl }

-- A phone that Alice registers, then Bob, and that is swept.
make_all-IsConsistent_example : IsConsistent memory listed parsers "phone" "bob" (
    make_all memory listed parsers
      ((10, registers "alice" "phone" none none)
        ∷ (20, registers "bob" "phone" none none)
        ∷ (30, reaches ("phone" ∷ []))
        ∷ (40, removes "alice" "phone")
        ∷ (90, sweeps 60)
        ∷ [])
      no_devices)
make_all-IsConsistent_example =
    make_all-IsConsistent memory listed parsers
      ((10, registers "alice" "phone" none none)
        ∷ (20, registers "bob" "phone" none none)
        ∷ (30, reaches ("phone" ∷ []))
        ∷ (40, removes "alice" "phone")
        ∷ (90, sweeps 60)
        ∷ [])
      "phone" "bob" no_devices (refl, (refl, (tt, (tt, (tt, tt))))) no_devices-IsConsistent

abbrev seen_once : Devices memory listed
seen_once = add_or_update_token memory listed parsers 10 "alice" "phone" no_devices

seen_at : memory.zscore seen_once.stale_tokens "phone" ≡ some 10
unfolding find insert without add_or_update_token_with_timezone_name
seen_at = refl

sweep_race_example :
    let d =
      sweep memory listed 20
        (read_stale memory listed 20 seen_once)
        (refresh_token_activity memory listed 30 ("phone" ∷ []) seen_once).1 in
    (d.token_to_pubkey "phone" ≡ none) × (memory.zscore d.stale_tokens "phone" ≡ some 30)
sweep_race_example =
    sweep_race memory listed parsers 20 30 10 "phone" seen_once seen_at (omega arith) (omega arith)
