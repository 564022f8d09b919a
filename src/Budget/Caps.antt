-- ===== src/Budget/Caps.antt =====
-- The hourly and the daily bound of `reserve` (src/notification_delivery.rs).
use divine_push_service.Prelude.{ℕ, ◌+◌, ◌≤◌, ◌≡◌, arith}
use divine_push_service.Redis.{SortedSets}
use divine_push_service.Budget.{
  DeliverySettings, Request, hour, day, Books, open_books, decide, reserve, hour_count, validate,
  validate_read, read_books,
}

module _ (R : SortedSets) where
  open R use {zcard, zcount}

  -- The reservations that both ledgers retain.
  abbrev pub retained : Books R → ℕ
  retained b = zcard b.own.sends.value + zcard b.other.sends.value

  decide-retained :
      (settings : DeliverySettings) (q : Request) (now : ℕ) (b : Books R)
      → retained b ≤ settings.daily_cap
      → retained (decide R settings q now b).1 ≤ settings.daily_cap
  unfolding decide
  decide-retained settings q now b h = ground (arith, R.zcard-zadd now q.identity b.own.sends.value)

  decide-hour_count :
      (settings : DeliverySettings) (q : Request) (now : ℕ) (b : Books R)
      → hour_count R now b ≤ settings.hourly_cap
      → hour_count R now (decide R settings q now b).1 ≤ settings.hourly_cap
  unfolding decide hour_count
  decide-hour_count settings q now b h = ground (
    arith,
    R.zcount-zadd now hour now q.identity b.own.sends.value,
    R.zcount-pos now hour b.own.sends.value q.identity,
  )

  zcount-no_members : (now window : ℕ) → zcount now window R.no_members ≤ 0
  zcount-no_members now window =
      omega (arith, R.zcount-le-zcard now window R.no_members, R.zcard-no_members)

  open_books-hour_count :
      (now : ℕ) (b : Books R) → hour_count R now (open_books R now b) ≤ hour_count R now b
  unfolding open_books hour_count
  open_books-hour_count now b = ground (
    arith,
    zcount-no_members now hour,
    R.zcount-zremrange now day now hour R.no_members,
    R.zcount-zremrange now day now hour b.own.sends.value,
    R.zcount-zremrange now day now hour b.other.sends.value,
  )

  open_books-retained : (now : ℕ) (b : Books R) → retained (open_books R now b) ≤ retained b
  unfolding open_books
  open_books-retained now b = ground (
    arith,
    zcount-no_members now day,
    R.zcard-zremrange now day R.no_members,
    R.zcard-zremrange now day b.own.sends.value,
    R.zcard-zremrange now day b.other.sends.value,
    R.zcount-le-zcard now day b.own.sends.value,
    R.zcount-le-zcard now day b.other.sends.value,
  )

  -- The reservations of the hour before `now`, and those retained, are within the bounds.
  pub record IsWithin (settings : DeliverySettings) (now : ℕ) (b : Books R) : Type 0 where
    pub hourly : hour_count R now b ≤ settings.hourly_cap
    pub daily : retained b ≤ settings.daily_cap

  hour_count_mono :
      (now now' : ℕ) (b : Books R) → now ≤ now' → hour_count R now' b ≤ hour_count R now b
  unfolding hour_count
  hour_count_mono now now' b h = omega (
    arith,
    R.zcount_mono now hour now' hour b.own.sends.value (omega arith),
    R.zcount_mono now hour now' hour b.other.sends.value (omega arith),
  )

  pub reserve-IsWithin :
      (settings : DeliverySettings) (q : Request) (now now' : ℕ) (b : Books R)
      → now ≤ now'
      → IsWithin settings now b
      → IsWithin settings now' (reserve R settings q now' b).1
  unfolding reserve
  reserve-IsWithin settings q now now' b later w =
      let b' = open_books R now' b in
      record {
        hourly =
            decide-hour_count settings q now' b'
              (omega (arith, open_books-hour_count now' b, hour_count_mono now now' b later));
        daily = decide-retained settings q now' b' (omega (arith, open_books-retained now' b));
      }

  validate_read-retained :
      (settings : DeliverySettings) (q : Request) (now : ℕ) (b : Books R)
      → retained (validate_read R settings q now b).1 ≡ retained b
  unfolding validate_read
  validate_read-retained settings q now b =
      ground (arith, R.zcard-zadd now q.identity b.own.sends.value)

  validate_read-hour_count :
      (settings : DeliverySettings) (q : Request) (now : ℕ) (b : Books R)
      → hour_count R now b ≤ settings.hourly_cap
      → hour_count R now (validate_read R settings q now b).1 ≤ settings.hourly_cap
  unfolding validate_read hour_count
  validate_read-hour_count settings q now b h = ground (
    arith,
    R.zcount-zadd now hour now q.identity b.own.sends.value,
    R.zcount-pos now hour b.own.sends.value q.identity,
  )

  read_books-hour_count :
      (now : ℕ) (b : Books R) → hour_count R now (read_books R now b) ≤ hour_count R now b
  unfolding read_books hour_count
  read_books-hour_count now b = ground (arith, zcount-no_members now hour)

  read_books-retained : (now : ℕ) (b : Books R) → retained (read_books R now b) ≤ retained b
  unfolding read_books
  read_books-retained now b = ground (arith, R.zcard-no_members)

  pub validate-IsWithin :
      (settings : DeliverySettings) (q : Request) (now now' : ℕ) (b : Books R)
      → now ≤ now'
      → IsWithin settings now b
      → IsWithin settings now' (validate R settings q now' b).1
  unfolding validate
  validate-IsWithin settings q now now' b later w =
      let b' = read_books R now' b in
      record {
        hourly =
            validate_read-hour_count settings q now' b'
              (omega (arith, read_books-hour_count now' b, hour_count_mono now now' b later));
        daily =
            omega (arith, validate_read-retained settings q now' b', read_books-retained now' b);
      }
