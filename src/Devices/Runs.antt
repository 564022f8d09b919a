-- ===== src/Devices/Runs.antt =====
-- Runs of the calls on device tokens (src/redis_store.rs).
use divine_push_service.Prelude.{ℕ, ◌≡◌, String, Option, some, List, [], ◌∷◌, All}
use divine_push_service.Prelude.Int.{ℤ}
use divine_push_service.Redis.{SortedSets}
use divine_push_service.Redis.Members.{MemberSets}
use divine_push_service.Devices.{
  Parsers, Devices, cleanup_stale_tokens, refresh_token_activity,
  add_or_update_token_with_timezone_name, remove_token,
}
use divine_push_service.Devices.Consistency.{
  IsConsistent, register-IsConsistent, remove-IsConsistent, refresh-IsConsistent,
}
use divine_push_service.Devices.Sweep.{sweep_stale-IsConsistent}

-- A call, at its time.
pub data DeviceCall : Type 0 where
  -- with the public key, the token, its offset and the name of its timezone
  registers : String → String → Option ℤ → Option String → DeviceCall
  removes : String → String → DeviceCall
  -- with the tokens that a push reached
  reaches : List String → DeviceCall
  -- with the age from which a token is stale
  sweeps : ℕ → DeviceCall

module _ (R : SortedSets) (S : MemberSets) (P : Parsers) where
  unfoldable pub make : ℕ → DeviceCall → Devices R S → Devices R S
  make now (registers pubkey token offset timezone) d =
      add_or_update_token_with_timezone_name R S P now pubkey token offset timezone d
  make now (removes pubkey token) d = (remove_token R S pubkey token d).1
  make now (reaches tokens) d = (refresh_token_activity R S now tokens d).1
  make now (sweeps max_age_seconds) d = (cleanup_stale_tokens R S now max_age_seconds d).1

  unfoldable pub make_all : List (ℕ × DeviceCall) → Devices R S → Devices R S
  unfolding make
  make_all [] d = d
  make_all ((now, call) ∷ calls) d = make_all calls (make now call d)

  -- The public key of a registration is written the one way.
  abbrev pub IsWritten : DeviceCall → Type 0
  IsWritten (registers pubkey token offset timezone) = P.from_hex pubkey ≡ some pubkey
  IsWritten (removes pubkey token) = Unit
  IsWritten (reaches tokens) = Unit
  IsWritten (sweeps max_age_seconds) = Unit

  make-IsConsistent :
      (now : ℕ) (call : DeviceCall) (d : Devices R S)
      → IsWritten call
      → ((t p : String) → IsConsistent R S P t p d)
      → (token pubkey : String) → IsConsistent R S P token pubkey (make now call d)
  unfolding make
  make-IsConsistent now (registers p t offset timezone) d written h token pubkey =
      register-IsConsistent R S P now p t offset timezone token pubkey d written (h t pubkey)
        (h token pubkey)
  make-IsConsistent now (removes p t) d written h token pubkey =
      remove-IsConsistent R S P p t token pubkey d (h t pubkey) (h token pubkey)
  make-IsConsistent now (reaches tokens) d written h token pubkey =
      refresh-IsConsistent R S P now tokens token pubkey d (h token pubkey)
  make-IsConsistent now (sweeps max_age) d written h token pubkey =
      sweep_stale-IsConsistent R S P now max_age token pubkey d (h token pubkey)

  -- Over any run of registrations, removals, signs of life and sweeps, one after the other, each
  -- token stays in the set of its owner and in no other, and tracked exactly if it is owned.
  pub make_all-IsConsistent :
      (calls : List (ℕ × DeviceCall)) (token pubkey : String) (d : Devices R S)
      → All (λ (c : ℕ × DeviceCall). IsWritten c.1) calls
      → ((t p : String) → IsConsistent R S P t p d)
      → IsConsistent R S P token pubkey (make_all calls d)
  unfolding make_all
  make_all-IsConsistent [] token pubkey d written h = h token pubkey
  make_all-IsConsistent ((now, call) ∷ calls) token pubkey d written h =
      make_all-IsConsistent calls token pubkey (make now call d) written.1
        (make-IsConsistent now call d written.0 h)
