-- ===== src/Push/Payloads.antt =====
-- The payloads of src/event_handler.rs (`create_fcm_payload`, `create_direct_message_payload`).
use Prim.Native.String.{◌++◌}
use Prim.Native.String.{[] as empty_text, ◌∷◌ as then_char}
use divine_push_service.Prelude.{
  ℕ, suc, zero, String, Bool, Option, none, some, leb, str_eq, if◌then◌else◌, unwrap_or,
}
use divine_push_service.Preferences.{
  NotificationType, like, comment, mention, repost, direct_message, new_post, display_name,
}
use divine_push_service.Payload.{Fields, no_fields, put, put_some, FcmPayload}
use divine_push_service.Events.{
  Event, Parsing, ReferencedCoordinate, referenced_event_id, referenced_coordinate,
}
use divine_push_service.Push.Call.{Writing, EventScopedCopy, is_video}

-- The characters of a text, and its first ones.
unfoldable pub char_count : String → ℕ
char_count empty_text = 0
char_count (then_char c text) = suc (char_count text)

unfoldable pub take_chars : ℕ → String → String
take_chars zero text = ""
take_chars (suc n) empty_text = ""
take_chars (suc n) (then_char c text) = then_char c (take_chars n text)

unfoldable pub truncate_string : String → ℕ → String
truncate_string text max_len =
    if leb (char_count text) max_len then text else take_chars max_len text ++ "..."

abbrev pub rendered : Event → EventScopedCopy → String
rendered event copy =
    copy.sender_name ++ ": " ++ truncate_string (unwrap_or copy.formatted_content event.content) 150

-- The title and the body; a direct message has a payload of its own.
unfoldable pub title_and_body : Event → EventScopedCopy → NotificationType → String × String
title_and_body event copy like = ("New like", copy.sender_name ++ " liked your post")
title_and_body event copy comment = ("New comment", rendered event copy)
title_and_body event copy mention = ("You were mentioned", rendered event copy)
title_and_body event copy repost = ("New repost", copy.sender_name ++ " reposted your post")
title_and_body event copy direct_message = ("New message", "You have a new message")
title_and_body event copy new_post = ("New vine", copy.sender_name ++ " posted a new vine")

unfoldable pub create_direct_message_payload : Writing → String → String → FcmPayload
create_direct_message_payload W id recipient = record {
  contents = some (
      put "eventKind" (W.decimal 1059) (
        put "receiverNpub" (W.to_bech32 recipient) (
          put "receiverPubkey" recipient (
            put "body" "You have a new message" (
              put "title" "New message"
                (put "eventId" id (put "type" (display_name direct_message) no_fields)))))));
  collapse_key = none;
}

abbrev put_coordinate : Option ReferencedCoordinate → Fields → Fields
put_coordinate none fields = fields
put_coordinate (some c) fields = put "referencedDTag" c.d_tag (
    put "referencedAuthorPubkey" c.author_pubkey
      (put "referencedKind" c.kind (put "referencedAddress" c.address fields)))

unfoldable pub insert_reference_fields : Parsing → Event → Fields → Fields
insert_reference_fields P event fields =
    put_coordinate (referenced_coordinate P event)
      (put_some "referencedEventId" (referenced_event_id event) fields)

unfoldable pub insert_video_reference_fields : Writing → Event → Fields → Fields
insert_video_reference_fields W event fields =
    let fields' = put "referencedEventId" event.id fields in
    elim event.identifier [
      | none ↦ fields'
      | some d_tag ↦
          let kind = W.decimal event.kind in
          put_coordinate
            (some (record {
              address = kind ++ ":" ++ event.pubkey ++ ":" ++ d_tag;
              kind = kind;
              author_pubkey = event.pubkey;
              d_tag = d_tag;
            }))
            fields'
    ]

unfoldable pub insert_trigger_reference_fields : Parsing → Writing → Event → Fields → Fields
insert_trigger_reference_fields P W event fields =
    if is_video event
    then insert_video_reference_fields W event fields
    else insert_reference_fields P event fields

abbrev is_direct_message : NotificationType → Bool
is_direct_message type = str_eq (display_name type) "directMessage"

unfoldable pub create_fcm_payload :
    Parsing
    → Writing
    → Event
    → String
    → NotificationType
    → EventScopedCopy
    → Option String
    → FcmPayload
create_fcm_payload P W event recipient type copy collapse_key =
    let (title, body) = title_and_body event copy type in
    if is_direct_message type then create_direct_message_payload W event.id recipient else record {
      contents = some (
          insert_trigger_reference_fields P W event (
            put "timestamp" (W.decimal event.created_at) (
              put "eventKind" (W.decimal event.kind) (
                put "receiverNpub" (W.to_bech32 recipient) (
                  put "receiverPubkey" recipient (
                    put "senderName" copy.sender_name (
                      put "senderPubkey" event.pubkey (
                        put "body" body (
                          put "title" title (
                            put "eventId" event.id
                              (put "type" (display_name type) no_fields)))))))))));
      collapse_key = collapse_key;
    }
