-- ===== src/Events.antt =====
-- src/event_handler.rs: an event as the handler reads it, whom it tells of what, and the object that
-- a reaction points at.
pub mod Targets
use Prim.Native.String.{◌++◌}
use divine_push_service.Prelude.{
  ℕ, ◌-◌, ◌*◌, String, Bool, true, false, ◌&&◌, ◌||◌, not, Option, none, some, List, [], ◌∷◌, ltb,
  ◌==◌, str_eq, if◌then◌else◌, is_some, length,
}
use divine_push_service.Redis.Members.{contains}
use divine_push_service.Preferences.{
  NotificationType, like, comment, mention, repost, direct_message, new_post,
}

pub data EventContext : Type 0 where
  historical live : EventContext

-- A tag's kind as it is spelled, and its content.
pub record Tag : Type 0 where
  pub name : String
  pub content : Option String

-- `identifier` is what the crate finds of the `d` tags. A public key and an event's own identifier
-- are their texts in hexadecimal.
pub record Event : Type 0 where
  pub id : String
  pub kind : ℕ
  pub pubkey : String
  pub created_at : ℕ
  pub content : String
  pub tags : List Tag
  pub identifier : Option String

abbrev pub kind_registration : ℕ
kind_registration = 3079

abbrev pub kind_deregistration : ℕ
kind_deregistration = 3080

abbrev pub kind_preferences_update : ℕ
kind_preferences_update = 3083

abbrev pub kind_video : ℕ
kind_video = 34236

abbrev pub kind_notify_list : ℕ
kind_notify_list = 30000

abbrev pub notify_list_d_tag : String
notify_list_d_tag = "notify"

abbrev pub replay_horizon_days : ℕ
replay_horizon_days = 7

abbrev pub is_that : String → Option String → Bool
is_that text none = false
is_that text (some t) = str_eq t text

unfoldable pub is_notify_list : Event → Bool
is_notify_list event =
    (event.kind == kind_notify_list) && is_that notify_list_d_tag event.identifier

-- `now` is the clock's second; a time does not go below 0.
unfoldable pub is_event_too_old : ℕ → Event → Bool
is_event_too_old now event = ltb event.created_at (now - replay_horizon_days * 24 * 60 * 60)

unfoldable pub is_beyond_replay_horizon : ℕ → Event → Bool
is_beyond_replay_horizon now event = is_event_too_old now event && not (is_notify_list event)

unfoldable pub requires_event_claim : Event → Bool
requires_event_claim event =
    (event.kind == kind_registration)
    || ((event.kind == kind_deregistration) || (event.kind == kind_preferences_update))

-- What the crates and the standard library do with text: `PublicKey::from_str`, then `to_hex`;
-- `splitn(3, ':')`; whether `parse::<u32>` succeeds.
pub record Parsing : Type 0 where
  pub from_str : String → Option String
  pub splitn_3 : String → List String
  pub is_u32 : String → Bool

-- The public keys in the tags of some kinds, in order: a content that does not parse is passed over.
unfoldable pub pubkeys_of : Parsing → (String → Bool) → List Tag → List String
pubkeys_of P is_wanted [] = []
pubkeys_of P is_wanted (tag ∷ tags) =
    let rest = pubkeys_of P is_wanted tags in
    if is_wanted tag.name
    then elim tag.content [
      | none ↦ rest
      | some text ↦ elim (P.from_str text) [ none ↦ rest | some pubkey ↦ pubkey ∷ rest ]
    ]
    else rest

abbrev pub is_p : String → Bool
is_p name = str_eq name "p"

unfoldable pub is_event_for_service : Parsing → Event → String → Bool
unfolding pubkeys_of
is_event_for_service P event service = contains (pubkeys_of P is_p event.tags) service

-- The recipients of a reaction, of a repost and of mentions are found by the same code.
unfoldable pub find_mentioned_pubkeys : Parsing → Event → List String
find_mentioned_pubkeys P event = pubkeys_of P is_p event.tags

abbrev pub find_reaction_recipients : Parsing → Event → List String
find_reaction_recipients P event = find_mentioned_pubkeys P event

abbrev pub find_repost_recipients : Parsing → Event → List String
find_repost_recipients P event = find_mentioned_pubkeys P event

-- Each once, after those seen, in order.
unfoldable pub distinct_after : (seen pubkeys : List String) → List String
distinct_after seen [] = []
distinct_after seen (pubkey ∷ pubkeys) =
    if contains seen pubkey
    then distinct_after seen pubkeys
    else pubkey ∷ distinct_after (pubkey ∷ seen) pubkeys

abbrev pub is_author_tag : String → Bool
is_author_tag name = str_eq name "P" || str_eq name "p"

unfoldable pub find_comment_recipients : Parsing → Event → List String
find_comment_recipients P event = distinct_after [] (pubkeys_of P is_author_tag event.tags)

-- The loop over a notify list's `p` tags, of which `seen` were taken.
unfoldable pub collect_creators : String → ℕ → (seen pubkeys : List String) → List String
collect_creators author max_creators seen [] = []
collect_creators author max_creators seen (pubkey ∷ pubkeys) =
    if str_eq pubkey author
    then collect_creators author max_creators seen pubkeys
    else if contains seen pubkey
    then collect_creators author max_creators seen pubkeys
    else if length seen == max_creators
    then []
    else pubkey ∷ collect_creators author max_creators (pubkey ∷ seen) pubkeys

unfoldable pub collect_notify_creators : Parsing → Event → ℕ → List String
collect_notify_creators P event max_creators =
    collect_creators event.pubkey max_creators [] (pubkeys_of P is_p event.tags)

pub record NotificationTarget : Type 0 where
  pub recipient : String
  pub notification_type : NotificationType

unfoldable pub targets_of : NotificationType → List String → List NotificationTarget
targets_of type [] = []
targets_of type (recipient ∷ recipients) =
    record { recipient = recipient; notification_type = type } ∷ targets_of type recipients

unfoldable pub deliverable_targets : List NotificationTarget → String → List NotificationTarget
deliverable_targets [] author = []
deliverable_targets (target ∷ targets) author =
    let rest = deliverable_targets targets author in
    if str_eq target.recipient author then rest else target ∷ rest

unfoldable pub content_notification_targets : Parsing → Event → Option (List NotificationTarget)
content_notification_targets P event =
    if event.kind == 7
    then some (targets_of like (find_reaction_recipients P event))
    else if event.kind == 1111
    then some (targets_of comment (find_comment_recipients P event))
    else if event.kind == 16
    then some (targets_of repost (find_repost_recipients P event))
    else if event.kind == 30023
    then some (targets_of mention (find_mentioned_pubkeys P event))
    else none

abbrev pub without_author : String → List String → List String
without_author author [] = []
without_author author (pubkey ∷ pubkeys) =
    let rest = without_author author pubkeys in if str_eq pubkey author then rest else pubkey ∷ rest

unfoldable pub video_mention_targets : Parsing → Event → List NotificationTarget
video_mention_targets P event =
    targets_of mention (without_author event.pubkey (find_mentioned_pubkeys P event))

unfoldable pub watcher_page_targets :
    (watchers : List String) → String → (mentioned : List String) → List NotificationTarget
watcher_page_targets [] author mentioned = []
watcher_page_targets (watcher ∷ watchers) author mentioned =
    let rest = watcher_page_targets watchers author mentioned in
    if str_eq watcher author
    then rest
    else if contains mentioned watcher
    then rest
    else record { recipient = watcher; notification_type = new_post } ∷ rest

unfoldable pub renders_event_content : NotificationType → Bool
renders_event_content comment = true
renders_event_content mention = true
renders_event_content like = false
renders_event_content repost = false
renders_event_content direct_message = false
renders_event_content new_post = false

-- `Tags::find`, and the content of the tag it finds.
unfoldable pub find_tag : String → List Tag → Option Tag
find_tag name [] = none
find_tag name (tag ∷ tags) = if str_eq tag.name name then some tag else find_tag name tags

abbrev pub content_of : Option Tag → Option String
content_of none = none
content_of (some tag) = tag.content

-- `find(first).or_else(|| find(second))`
unfoldable pub find_either : String → String → List Tag → Option Tag
find_either first second tags = elim (find_tag first tags) [
  | some tag ↦ some tag
  | none ↦ find_tag second tags
]

unfoldable pub referenced_event_id : Event → Option String
referenced_event_id event = content_of (find_either "E" "e" event.tags)

pub record ReferencedCoordinate : Type 0 where
  pub address : String
  pub kind : String
  pub author_pubkey : String
  pub d_tag : String

-- The parts of a coordinate, if there are three.
abbrev pub coordinate_of : Parsing → String → List String → Option ReferencedCoordinate
coordinate_of P address (kind ∷ author_pubkey ∷ d_tag ∷ rest) =
    if not (P.is_u32 kind) || (str_eq author_pubkey "" || str_eq d_tag "")
    then none
    else some
        (record { address = address; kind = kind; author_pubkey = author_pubkey; d_tag = d_tag })
coordinate_of P address (kind ∷ author_pubkey ∷ []) = none
coordinate_of P address (kind ∷ []) = none
coordinate_of P address [] = none

unfoldable pub parse_coordinate : Parsing → String → Option ReferencedCoordinate
parse_coordinate P address = coordinate_of P address (P.splitn_3 address)

abbrev pub parse_some : Parsing → Option String → Option ReferencedCoordinate
parse_some P none = none
parse_some P (some address) = parse_coordinate P address

unfoldable pub referenced_coordinate : Parsing → Event → Option ReferencedCoordinate
referenced_coordinate P event = parse_some P (content_of (find_either "A" "a" event.tags))

-- The content of the last `e` tag that has one.
unfoldable pub last_event : List Tag → Option String
last_event [] = none
last_event (tag ∷ tags) =
    let rest = last_event tags in
    if is_some rest then rest else if str_eq tag.name "e" then tag.content else none

pub record CoalesceTarget : Type 0 where
  pub key : String
  pub event_id : Option String
  pub address : Option ReferencedCoordinate

-- The first key that there is: the object acted upon, or else the root's.
unfoldable pub target_key :
    (direct_address : Option ReferencedCoordinate)
    → (direct_event : Option String) → (address : Option ReferencedCoordinate)
    → (event_id : Option String) → Option String
target_key (some a) direct_event address event_id = some ("a:" ++ a.address)
target_key none (some e) address event_id = some ("e:" ++ e)
target_key none none (some a) event_id = some ("a:" ++ a.address)
target_key none none none (some e) = some ("e:" ++ e)
target_key none none none none = none

unfoldable pub coalesce_target : Parsing → Event → Option CoalesceTarget
coalesce_target P event =
    let event_id = referenced_event_id event in
    let address = referenced_coordinate P event in
    let direct_address = parse_some P (content_of (find_tag "a" event.tags)) in
    elim (target_key direct_address (last_event event.tags) address event_id) [
      | none ↦ none
      | some key ↦ some (record { key = key; event_id = event_id; address = address })
    ]
