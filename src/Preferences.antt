-- ===== src/Preferences.antt =====
-- src/preferences.rs: the kinds that a user wants to hear of, the notification types, and the keys
-- that hold a user's choices.
pub mod Stored
use Prim.Native.String.{◌++◌}
use divine_push_service.Prelude.{
  ℕ, String, Bool, true, false, ◌||◌, Option, none, some, List, [], ◌∷◌, ◌==◌, str_eq, ◌≡◌,
  if◌then◌else◌, unwrap_or,
}

pub record UserPreferences : Type 0 where
  pub kinds : List ℕ  -- u16 each

abbrev pub default_preferences : UserPreferences
default_preferences = record { kinds = 1 ∷ 7 ∷ 16 ∷ 1059 ∷ 30023 ∷ 34236 ∷ [] }

-- `DefaultPreferences` of the settings has the same field.
abbrev pub from_defaults : List ℕ → UserPreferences
from_defaults kinds = record { kinds = kinds }

unfoldable pub contains : List ℕ → ℕ → Bool
contains [] kind = false
contains (k ∷ kinds) kind = (k == kind) || contains kinds kind

abbrev pub is_kind_enabled : UserPreferences → ℕ → Bool
is_kind_enabled prefs kind = contains prefs.kinds kind

pub data NotificationType : Type 0 where
  like comment mention repost direct_message new_post : NotificationType

unfoldable pub kind : NotificationType → ℕ
kind like = 7
kind comment = 1
kind mention = 1
kind repost = 16
kind direct_message = 1059
kind new_post = 34236

unfoldable pub is_enabled : NotificationType → UserPreferences → Bool
unfolding kind
is_enabled t prefs = is_kind_enabled prefs (kind t)

unfoldable pub display_name : NotificationType → String
display_name like = "like"
display_name comment = "comment"
display_name mention = "mention"
display_name repost = "repost"
display_name direct_message = "directMessage"
display_name new_post = "newPost"

unfoldable pub from_display_name : String → Option NotificationType
from_display_name name =
    if str_eq name "like"
    then some like
    else if str_eq name "comment"
    then some comment
    else if str_eq name "mention"
    then some mention
    else if str_eq name "repost"
    then some repost
    else if str_eq name "directMessage"
    then some direct_message
    else if str_eq name "newPost"
    then some new_post
    else none

unfoldable pub build_preferences_key : String → String
build_preferences_key pubkey = "user_preferences:" ++ pubkey

unfoldable pub build_campaign_consent_key : String → String
build_campaign_consent_key pubkey = "campaign_consent:" ++ pubkey

-- The text that serde and the Redis client write: what they write they read back.
pub record Format : Type 0 where
  pub to_string : UserPreferences → String
  pub from_str : String → Option UserPreferences
  pub from_str-to_string : (prefs : UserPreferences) → from_str (to_string prefs) ≡ some prefs
  pub write_bool : Bool → String
  pub read_bool : String → Option Bool
  pub read_bool-write_bool : (b : Bool) → read_bool (write_bool b) ≡ some b

-- The string keys of the database, which no expiry is set on.
abbrev pub Keys : Type 0
Keys = String → Option String

abbrev pub set : String → String → Keys → Keys
set key value keys j = if str_eq key j then some value else keys j

module _ (F : Format) where
  -- The outer `none` is the error of a value that is not a Boolean.
  unfoldable pub campaign_consent_enabled : String → Keys → Option Bool
  unfolding build_campaign_consent_key
  campaign_consent_enabled pubkey keys = elim (keys (build_campaign_consent_key pubkey)) [
    | none ↦ some false
    | some value ↦ F.read_bool value
  ]

  unfoldable pub set_user_preferences_with_campaign_consent :
      String → UserPreferences → Bool → Keys → Keys
  unfolding build_preferences_key build_campaign_consent_key
  set_user_preferences_with_campaign_consent pubkey prefs campaigns_enabled keys =
      set (build_campaign_consent_key pubkey) (F.write_bool campaigns_enabled)
        (set (build_preferences_key pubkey) (F.to_string prefs) keys)

  -- A value that does not parse reads as the defaults.
  unfoldable pub get_user_preferences : String → List ℕ → Keys → UserPreferences
  unfolding build_preferences_key
  get_user_preferences pubkey defaults keys = elim (keys (build_preferences_key pubkey)) [
    | none ↦ from_defaults defaults
    | some json ↦ unwrap_or (F.from_str json) (from_defaults defaults)
  ]

  unfoldable pub set_user_preferences : String → UserPreferences → Keys → Keys
  unfolding build_preferences_key
  set_user_preferences pubkey prefs keys =
      set (build_preferences_key pubkey) (F.to_string prefs) keys

  -- DEL
  unfoldable pub delete_user_preferences : String → Keys → Keys
  unfolding build_preferences_key
  delete_user_preferences pubkey keys j =
      if str_eq (build_preferences_key pubkey) j then none else keys j
