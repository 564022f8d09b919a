-- ===== src/Coalesce/Summary.antt =====
-- src/coalesce.rs: what a flush reads of a group, and the payload of its summary.
use Prim.Native.String.{◌++◌, len, slice}
use divine_push_service.Prelude.{
  ℕ, ◌-◌, String, Bool, Option, none, some, List, [], ◌∷◌, ltb, leb, ◌==◌, str_eq, if◌then◌else◌,
  unwrap_or,
}
use divine_push_service.Prelude.{◌++◌ as append}
use divine_push_service.Redis.{SortedSets, at_time}
use divine_push_service.Payload.{FcmPayload, Fields, no_fields, put, put_some}
use divine_push_service.Coalesce.Groups.{ActorCounts, Store}
use divine_push_service.Coalesce.Queue.{found}

-- What the crates parse and write.
pub record Names : Type 0 where
  -- `PublicKey::from_hex`, then `to_hex`
  pub from_hex : String → Option String
  pub to_bech32 : String → String
  pub decimal : ℕ → String
  pub collapse_key_for_group : String → String

pub record GroupSnapshot : Type 0 where
  pub group_id : String
  pub notification_type : String
  pub owner : String
  pub target : String
  pub due : ℕ
  pub expires_at : ℕ
  pub pending : ℕ
  pub immediate : ℕ
  pub generation : ℕ
  pub likes : ℕ
  pub reposts : ℕ
  pub likes_lower_bound : Bool
  pub reposts_lower_bound : Bool
  pub first_actor : Option String
  pub first_event : Option String
  pub last_at : Option ℕ
  pub event_kind : Option String
  pub ref_event_id : Option String
  pub ref_address : Option String
  pub ref_kind : Option String
  pub ref_author : Option String
  pub ref_dtag : Option String
  pub actor_count : ℕ

abbrev pub activity_digest : String
activity_digest = "activityDigest"

abbrev text_of : Names → Option ℕ → Option String
text_of N none = none
text_of N (some n) = some (N.decimal n)

module _ (R : SortedSets) (L : ActorCounts) where
  open L use {no_actors, pfcount}

  -- Both reads at one time. A group that is there has a field.
  unfoldable pub load_group : Names → ℕ → String → Store R L → Option GroupSnapshot
  load_group N now gid st = elim (found R L now gid st) [
    | none ↦ none
    | some g ↦ some (record {
      group_id = gid;
      notification_type = unwrap_or g.type "";
      owner = unwrap_or g.owner "";
      target = unwrap_or g.target "";
      due = unwrap_or g.due 0;
      expires_at = unwrap_or g.expires_at 0;
      pending = unwrap_or g.pending 0;
      immediate = unwrap_or g.immediate 0;
      generation = unwrap_or g.generation 0;
      likes = unwrap_or g.likes 0;
      reposts = unwrap_or g.reposts 0;
      likes_lower_bound = g.likes_lower_bound;
      reposts_lower_bound = g.reposts_lower_bound;
      first_actor = g.first_actor;
      first_event = g.first_event;
      last_at = g.last_at;
      event_kind = text_of N g.event_kind;
      ref_event_id = g.ref_event_id;
      ref_address = g.ref_address;
      ref_kind = g.ref_kind;
      ref_author = g.ref_author;
      ref_dtag = g.ref_dtag;
      actor_count = pfcount (at_time now no_actors (st.hlls gid)).value;
    })
  ]

unfoldable pub others_phrase : Names → ℕ → String
others_phrase N distinct_actors =
    if distinct_actors == 2 then "1 other" else N.decimal (distinct_actors - 1) ++ " others"

-- The title and the body.
unfoldable pub summary_copy : Names → String → String → ℕ → String × String
unfolding others_phrase
summary_copy N notification_type sample_name distinct_actors =
    let name = if str_eq sample_name "" then "Someone" else sample_name in
    if str_eq notification_type "repost"
    then if leb distinct_actors 1 then ("New repost", name ++ " reposted your post") else (
      "New reposts",
      name ++ " and " ++ others_phrase N distinct_actors ++ " reposted your post",
    )
    else if leb distinct_actors 1
    then ("New like", name ++ " liked your post")
    else ("New likes", name ++ " and " ++ others_phrase N distinct_actors ++ " liked your post")

unfoldable pub count_phrase : Names → ℕ → String → Bool → String
count_phrase N amount singular lower_bound =
    (if lower_bound then "at least " else "")
    ++ N.decimal amount
    ++ " "
    ++ singular
    ++ (if amount == 1 then "" else "s")

unfoldable pub activities : Names → GroupSnapshot → List String
unfolding count_phrase
activities N snapshot =
    append
      (if ltb 0 snapshot.likes
        then count_phrase N snapshot.likes "like" snapshot.likes_lower_bound ∷ []
        else [])
      (if ltb 0 snapshot.reposts
        then count_phrase N snapshot.reposts "repost" snapshot.reposts_lower_bound ∷ []
        else [])

-- `join(" and ")`.
unfoldable pub join_and : List String → String
join_and [] = ""
join_and (x ∷ []) = x
join_and (x ∷ y ∷ l) = x ++ " and " ++ join_and (y ∷ l)

unfoldable pub digest_fields : Names → GroupSnapshot → String → Fields
unfolding activities join_and
digest_fields N snapshot recipient =
    put "timestamp" (N.decimal (unwrap_or snapshot.last_at snapshot.due)) (
      put "receiverNpub" (N.to_bech32 recipient) (
        put "receiverPubkey" recipient (
          put "eventId" (unwrap_or snapshot.first_event "") (
            put "body" ("You received " ++ join_and (activities N snapshot) ++ ".")
              (put "title" "New activity" (put "type" activity_digest no_fields))))))

-- The fields that lead a tap to the same target as the immediate push.
unfoldable pub routing_fields : GroupSnapshot → Fields → Fields
routing_fields snapshot fields =
    let fields' = put_some "referencedEventId" snapshot.ref_event_id fields in
    elim snapshot.ref_address [
      | none ↦ fields'
      | some address ↦ put_some "referencedDTag" snapshot.ref_dtag (
          put_some "referencedAuthorPubkey" snapshot.ref_author
            (put_some "referencedKind" snapshot.ref_kind (put "referencedAddress" address fields')))
    ]

unfoldable pub group_fields : Names → GroupSnapshot → String → String → Fields
unfolding summary_copy routing_fields
group_fields N snapshot recipient sample_name =
    let (title, body) =
      summary_copy N snapshot.notification_type sample_name snapshot.actor_count in
    routing_fields snapshot (
      put "timestamp" (N.decimal (unwrap_or snapshot.last_at snapshot.due)) (
        put "eventKind" (unwrap_or snapshot.event_kind "") (
          put "receiverNpub" (N.to_bech32 recipient) (
            put "receiverPubkey" recipient (
              put "senderName" sample_name (
                put_some "senderPubkey" snapshot.first_actor (
                  put "body" body (
                    put "title" title (
                      put "eventId" (unwrap_or snapshot.first_event snapshot.target)
                        (put "type" snapshot.notification_type no_fields))))))))))

unfoldable pub build_summary_payload : Names → GroupSnapshot → String → String → String → FcmPayload
unfolding digest_fields group_fields
build_summary_payload N snapshot recipient sample_name collapse_key = record {
  contents = some (
      if str_eq snapshot.notification_type activity_digest
      then digest_fields N snapshot recipient
      else group_fields N snapshot recipient sample_name);
  collapse_key = some collapse_key;
}

unfoldable pub short_npub : Names → String → String
short_npub N pubkey_hex = elim (N.from_hex pubkey_hex) [
  | none ↦ "unknown"
  | some pubkey ↦
      (let npub = N.to_bech32 pubkey in
        if ltb 12 (len npub) then slice npub 0 12 ++ "..." else npub)
]
