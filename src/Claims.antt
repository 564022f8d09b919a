-- ===== src/Claims.antt =====
-- Claims of work (src/redis_store.rs): a key that the first attempt sets, with a time to live, and
-- that only the attempt whose value it holds may delete or extend.
pub mod Ownership
use Prim.Native.String.{◌++◌}
use divine_push_service.Prelude.{
  ℕ, ◌+◌, String, Bool, true, false, Option, none, some, str_eq, if◌then◌else◌,
}
use divine_push_service.Redis.{Key, at_time, expire}

-- The string keys that hold claims.
abbrev pub ClaimKeys : Type 0
ClaimKeys = String → Key (Option String)

abbrev pub set_key : String → Key (Option String) → ClaimKeys → ClaimKeys
set_key key k keys j = if str_eq key j then k else keys j

abbrev pub absent_key : Key (Option String)
absent_key = record { value = none; expires_at = none }

abbrev pub is_held_by : String → Option String → Bool
is_held_by owner none = false
is_held_by owner (some value) = str_eq value owner

-- SET key value NX EX ttl
unfoldable pub set_nx_ex : ℕ → String → String → ℕ → ClaimKeys → Bool × ClaimKeys
set_nx_ex now key value ttl_seconds keys = elim (at_time now none (keys key)).value [
  | some other ↦ (false, keys)
  | none ↦ (
    true,
    set_key key (record { value = some value; expires_at = some (now + ttl_seconds) }) keys,
  )
]

-- The script that compares and deletes.
unfoldable pub delete_if_held : ℕ → String → String → ClaimKeys → Bool × ClaimKeys
delete_if_held now key owner keys =
    if is_held_by owner (at_time now none (keys key)).value
    then (true, set_key key absent_key keys)
    else (false, keys)

unfoldable pub try_claim_event : ℕ → String → ℕ → ClaimKeys → Bool × ClaimKeys
unfolding set_nx_ex
try_claim_event now event_id ttl_seconds keys =
    set_nx_ex now ("dedup:" ++ event_id) "1" ttl_seconds keys

pub record RecipientEventClaim : Type 0 where
  pub key : String
  pub value : String

-- `value` is the identifier that the attempt draws.
unfoldable pub try_claim_recipient_event :
    ℕ → String → String → String → ℕ → ClaimKeys → Option RecipientEventClaim × ClaimKeys
unfolding set_nx_ex
try_claim_recipient_event now event_id recipient value ttl_seconds keys =
    let claim : RecipientEventClaim = record {
      key = "dedup:" ++ event_id ++ ":" ++ recipient;
      value = value;
    } in
    let (claimed, keys') = set_nx_ex now claim.key value ttl_seconds keys in
    (if claimed then some claim else none, keys')

unfoldable pub release_recipient_event_claim :
    ℕ → RecipientEventClaim → ClaimKeys → Bool × ClaimKeys
unfolding delete_if_held
release_recipient_event_claim now claim keys = delete_if_held now claim.key claim.value keys

unfoldable pub claim_campaign_delivery : ℕ → String → String → ℕ → ClaimKeys → Bool × ClaimKeys
unfolding set_nx_ex
claim_campaign_delivery now key owner ttl_secs keys = set_nx_ex now key owner ttl_secs keys

unfoldable pub release_campaign_delivery : ℕ → String → String → ClaimKeys → Bool × ClaimKeys
unfolding delete_if_held
release_campaign_delivery now key owner keys = delete_if_held now key owner keys

-- The script that compares and sets the expiry.
unfoldable pub promote_campaign_delivery : ℕ → String → String → ℕ → ClaimKeys → Bool × ClaimKeys
promote_campaign_delivery now key owner ttl_secs keys =
    let k = at_time now none (keys key) in
    if is_held_by owner k.value
    then (true, set_key key (expire now ttl_secs k) keys)
    else (false, keys)
