-- ===== src/Payload.antt =====
-- src/models.rs: the payload of a push, as far as the service fills it in; its notification and its
-- platform overrides are `None` wherever one is built. And `immediate_delivery` of
-- src/notification_delivery.rs.
use divine_push_service.Prelude.{
  String, Bool, false, ◌||◌, Option, none, some, str_eq, if◌then◌else◌,
}

-- A `HashMap` of strings.
abbrev pub Fields : Type 0
Fields = String → Option String

abbrev pub no_fields : Fields
no_fields key = none

abbrev pub put : String → String → Fields → Fields
put key value fields j = if str_eq key j then some value else fields j

-- A field that is put where there is a value.
abbrev pub put_some : String → Option String → Fields → Fields
put_some key none fields = fields
put_some key (some value) fields = put key value fields

pub record FcmPayload : Type 0 where
  pub contents : Option Fields
  pub collapse_key : Option String

unfoldable pub is_prefetched : Option String → Bool
is_prefetched none = false
is_prefetched (some kind) =
    str_eq kind "like"
    || (str_eq kind "comment"
        || (str_eq kind "mention" || (str_eq kind "repost" || str_eq kind "newPost")))

unfoldable pub immediate_delivery : FcmPayload → FcmPayload
unfolding is_prefetched
immediate_delivery payload = elim payload.contents [
  | none ↦ record payload { contents = some (put "deliveryTtlSeconds" "0" no_fields) }
  | some fields ↦ record payload {
    contents = some (
        put "deliveryTtlSeconds" "0"
          (if is_prefetched (fields "type") then put "prefetchContent" "true" fields else fields));
  }
]
