-- ===== src/Tests/Budgets.antt =====
-- One account's budgets at concrete times.
use divine_push_service.Prelude.{
  ◌+◌, ◌-◌, ◌%◌, ◌≤◌, ◌≡◌, ◌≢◌, [], ◌∷◌, none, some, refl, arith, ltb, false, unwrap_or,
}
use divine_push_service.Prelude.Int.{pos, negsuc}
use divine_push_service.Redis.Memory.{memory}
use divine_push_service.Activity.{no_visits}
use divine_push_service.Budget.{
  default_settings, nonurgent, Request, Ledger, Books, reserve, allowed, cooldown, latest_left,
  is_fenced,
}
use divine_push_service.Redis.Entries.{find, without, insert, fresh, count}
use divine_push_service.Delivery.{
  Budgets, books_of, reserve_budget_for_class, in_quiet_hours, local_hour,
}
use divine_push_service.Delivery.Limits.{
  AreCapped, reserve_call, validate_call, make_all, make_all-AreCapped,
}
use divine_push_service.Delivery.Quiet.{in_quiet_hours_circular}
use divine_push_service.Budget.Retry.{reserve_again}
use divine_push_service.Budget.Spacing.{reserve_spaced}
use divine_push_service.Budget.Fence.{reserve_authorized}

abbrev no_ledger : Ledger memory
no_ledger = record {
  sends = record { value = ([], tt); expires_at = none };
  generations = record { value = λ id. none; expires_at = none };
}

abbrev no_budgets : Budgets memory
no_budgets = record {
  nonurgent_ledger = no_ledger;
  direct_ledger = no_ledger;
  visits = record { value = no_visits; expires_at = none };
  leases = record { value = ([], tt); expires_at = none };
}

abbrev like : Request
like = record { identity = "like"; generation = some 0; class = nonurgent }

abbrev repost : Request
repost = record { identity = "repost"; generation = none; class = nonurgent }

reserve_first :
    (reserve_budget_for_class memory default_settings like 100_000 no_budgets).0 ≡ allowed
unfolding reserve_budget_for_class reserve latest_left find without insert fresh count
reserve_first = refl

abbrev once : Budgets memory
once = (reserve_budget_for_class memory default_settings like 100_000 no_budgets).1

-- The next identity waits six hours.
reserve_second :
    (reserve_budget_for_class memory default_settings repost 100_600 once).0 ≡ cooldown 21_000
unfolding reserve_budget_for_class reserve latest_left find without insert fresh count
reserve_second = refl

once-AreCapped : AreCapped memory default_settings 100_000 once
unfolding reserve_budget_for_class reserve latest_left find without insert fresh count
once-AreCapped = record { hourly = omega arith; daily = omega arith }

make_all-AreCapped_example : AreCapped memory default_settings 122_000 (
    make_all memory default_settings
      ((600, reserve_call repost) ∷ (21_400, validate_call like) ∷ [])
      100_000
      once)
make_all-AreCapped_example =
    make_all-AreCapped memory default_settings
      ((600, reserve_call repost) ∷ (21_400, validate_call like) ∷ []) 100_000 once once-AreCapped

abbrev no_books : Books memory
no_books = books_of memory nonurgent no_budgets

abbrev like_books : Books memory
like_books = (reserve memory default_settings like 100_000 no_books).1

like_allowed : (reserve memory default_settings like 100_000 no_books).0 ≡ allowed
unfolding reserve latest_left find without insert fresh count books_of
like_allowed = refl

reserve_again_example :
    ((reserve memory default_settings like 100_000 like_books).0 ≡ allowed)
    × (memory.zcard (reserve memory default_settings like 100_000 like_books).1.own.sends.value
        ≡ memory.zcard like_books.own.sends.value)
reserve_again_example = reserve_again memory default_settings like 100_000 no_books like_allowed

repost_allowed : (reserve memory default_settings repost 121_600 like_books).0 ≡ allowed
unfolding reserve latest_left find without insert fresh count books_of
repost_allowed = refl

like_kept :
    memory.zscore
      (reserve memory default_settings repost 121_600 like_books).1.own.sends.value
      "like"
    ≡ some 100_000
unfolding reserve latest_left find without insert fresh count books_of
like_kept = refl

reserve_spaced_example : 100_000 + 21_600 ≤ 121_600
reserve_spaced_example =
    reserve_spaced memory default_settings repost 121_600 like_books "like" 100_000 repost_allowed
      refl refl like_kept

reserve_authorized_example :
    (memory.zcount 100_000 0 ([], tt) ≡ 0)
    × (is_fenced (some 0) 0 ≡ false)
    × (memory.zscore like_books.own.sends.value "like" ≡ some 100_000)
    × (unwrap_or (like_books.own.generations.value "like") 0 ≡ 0)
unfolding books_of
reserve_authorized_example =
    reserve_authorized memory default_settings like 100_000 no_books like_allowed

repost_refused : (reserve memory default_settings repost 100_600 like_books).0 ≢ allowed
unfolding reserve latest_left find without insert fresh count books_of
repost_refused e = cc

in_quiet_hours_circular_example :
    in_quiet_hours (negsuc 299) (pos 1_700_000_000) default_settings
    ≡ ltb ((local_hour (negsuc 299) (pos 1_700_000_000) + 24 - 21) % 24) ((7 + 24 - 21) % 24)
in_quiet_hours_circular_example =
    in_quiet_hours_circular (negsuc 299) (pos 1_700_000_000) default_settings (omega arith)
      (omega arith)
