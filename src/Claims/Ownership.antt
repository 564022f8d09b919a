-- ===== src/Claims/Ownership.antt =====
-- What the owner of a claim is protected from (src/redis_store.rs).
use divine_push_service.Prelude.{
  ℕ, ◌+◌, ◌<◌, ◌≡◌, String, true, false, arith, str_eq, eq_iff, eq_refl,
}
use divine_push_service.Claims.{
  ClaimKeys, claim_campaign_delivery, release_campaign_delivery, promote_campaign_delivery,
}

module _ (now later ttl : ℕ) (key owner other : String) (keys : ClaimKeys) where
  -- A claim that is taken holds its key: until it expires no second claim of the key is granted,
  -- and another attempt's release and promotion do nothing.
  pub claim_exclusive_until :
      (ttl' : ℕ)
      → (claim_campaign_delivery now key owner ttl keys).0 ≡ true
      → later < now + ttl
      → str_eq owner other ≡ false
      → let keys' = (claim_campaign_delivery now key owner ttl keys).1 in
        (claim_campaign_delivery later key other ttl' keys' ≡ (false, keys'))
        × (release_campaign_delivery later key other keys' ≡ (false, keys'))
        × (promote_campaign_delivery later key other ttl' keys' ≡ (false, keys'))
  unfolding claim_campaign_delivery release_campaign_delivery promote_campaign_delivery
  claim_exclusive_until ttl' ok live apart = ground (arith, eq_refl key, eq_iff owner other)

  -- A released claim can be taken again at once.
  pub claim_after_release :
      (ttl' : ℕ)
      → (claim_campaign_delivery now key owner ttl keys).0 ≡ true
      → later < now + ttl
      → let keys' = (claim_campaign_delivery now key owner ttl keys).1 in
        let (released, keys'') = release_campaign_delivery later key owner keys' in
        (released ≡ true) × ((claim_campaign_delivery later key other ttl' keys'').0 ≡ true)
  unfolding claim_campaign_delivery release_campaign_delivery
  claim_after_release ttl' ok live = ground (arith, eq_refl key, eq_refl owner)
