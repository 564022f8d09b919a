-- ===== src/Preferences/Stored.antt =====
-- Round trips of src/preferences.rs.
use text.Mathlib.TextLemmas.{append_cancel_left, append_inj}
use divine_push_service.Prelude.{
  ℕ, String, Bool, true, false, some, List, ◌≡◌, arith, refl, str_eq, eq_iff, eq_refl, sym,
}
use divine_push_service.Preferences.{
  UserPreferences, NotificationType, like, comment, mention, repost, direct_message, new_post,
  display_name, from_display_name, Format, Keys, build_preferences_key, build_campaign_consent_key,
  get_user_preferences, set_user_preferences_with_campaign_consent, campaign_consent_enabled,
}

-- The name of a notification type is read back as that type.
pub from_display_name-display_name :
    (t : NotificationType) → from_display_name (display_name t) ≡ some t
unfolding from_display_name display_name
from_display_name-display_name like = refl
from_display_name-display_name comment = refl
from_display_name-display_name mention = refl
from_display_name-display_name repost = refl
from_display_name-display_name direct_message = refl
from_display_name-display_name new_post = refl

false≢true : false ≡ true → ⊥
false≢true e = cc

keys_apart : (p q : String) → build_campaign_consent_key p ≡ build_preferences_key q → ⊥
unfolding build_preferences_key build_campaign_consent_key
keys_apart p q e = false≢true (
    (eq_iff "campaign_consent:" "user_preferences:").1
      (append_inj {s₁ = "campaign_consent:"} {s₂ = "user_preferences:"} e refl).0)

consent_key-other :
    (p q : String) → str_eq (build_campaign_consent_key p) (build_preferences_key q) ≡ false
consent_key-other p q =
    ground (arith, keys_apart p q, eq_iff (build_campaign_consent_key p) (build_preferences_key q))

preferences_key-other :
    (p q : String) → str_eq (build_preferences_key p) (build_campaign_consent_key q) ≡ false
preferences_key-other p q = ground (
  arith,
  (λ (e : build_preferences_key p ≡ build_campaign_consent_key q). keys_apart q p (sym e)),
  eq_iff (build_preferences_key p) (build_campaign_consent_key q),
)

preferences_key-injective :
    (p q : String)
    → str_eq p q ≡ false
    → str_eq (build_preferences_key p) (build_preferences_key q) ≡ false
unfolding build_preferences_key
preferences_key-injective p q other = ground (
  arith,
  eq_iff p q,
  append_cancel_left "user_preferences:" p q,
  eq_iff (build_preferences_key p) (build_preferences_key q),
)

consent_key-injective :
    (p q : String)
    → str_eq p q ≡ false
    → str_eq (build_campaign_consent_key p) (build_campaign_consent_key q) ≡ false
unfolding build_campaign_consent_key
consent_key-injective p q other = ground (
  arith,
  eq_iff p q,
  append_cancel_left "campaign_consent:" p q,
  eq_iff (build_campaign_consent_key p) (build_campaign_consent_key q),
)

-- Preferences that are set with a consent are what is then read, both, and those of another user
-- stay as they were.
pub set-get :
    (F : Format) (p q : String) (prefs : UserPreferences) (campaigns : Bool) (defaults : List ℕ)
    (keys : Keys)
    → str_eq p q ≡ false
    → let keys' = set_user_preferences_with_campaign_consent F p prefs campaigns keys in
      (get_user_preferences F p defaults keys' ≡ prefs)
      × (campaign_consent_enabled F p keys' ≡ some campaigns)
      × (get_user_preferences F q defaults keys' ≡ get_user_preferences F q defaults keys)
      × (campaign_consent_enabled F q keys' ≡ campaign_consent_enabled F q keys)
unfolding get_user_preferences set_user_preferences_with_campaign_consent campaign_consent_enabled
set-get F p q prefs campaigns defaults keys other = ground (
  arith,
  F.from_str-to_string prefs,
  F.read_bool-write_bool campaigns,
  consent_key-other p p,
  consent_key-other p q,
  preferences_key-other p q,
  preferences_key-injective p q other,
  consent_key-injective p q other,
  eq_refl (build_preferences_key p),
  eq_refl (build_campaign_consent_key p),
)
