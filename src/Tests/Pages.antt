-- ===== src/Tests/Pages.antt =====
-- The handling of one event and of one page, at concrete inputs.
use divine_push_service.Prelude.{
  ℕ, ◌≡◌, ◌||◌, true, false, none, some, List, [], ◌∷◌, refl, arith, is_some, eq_refl,
}
use divine_push_service.Redis.Memory.{memory}
use divine_push_service.Redis.Members.{listed}
use divine_push_service.Fanout.{NewPostFanoutJob, FanoutQueue, fanout_job_expired}
use divine_push_service.Fanout.Page.{
  PageCall, FanoutSettings, process_and_rescore, page_result, page_targets, bounded_result,
}
use divine_push_service.Fanout.Page.Kept.{retry_all, retries_end, page_kept}
use divine_push_service.Events.{
  Event, live, historical, requires_event_claim, is_beyond_replay_horizon, is_notify_list,
  is_event_too_old, targets_of, NotificationTarget, watcher_page_targets, video_mention_targets,
  find_mentioned_pubkeys, pubkeys_of,
}
use divine_push_service.Preferences.{mention}
use divine_push_service.Push.{err, ok, is_ok}
use divine_push_service.Notify.Bytes.{bytes_above}
use divine_push_service.Handler.{
  Service, HandlerSettings, HandlerCall, Stored, handle_event, send_notifications_sequential,
  is_stopped, send_from, keep_first,
}
use divine_push_service.Handler.Once.{control_event_once}
use divine_push_service.Handler.Each.{deliver_all, sends_to_all}
use divine_push_service.Push.{
  send_notification_trigger_to_user, is_expired, bind_and_push, find_tokens, tokens_at,
}
use divine_push_service.Campaign.Deliver.{is_permitted}
use divine_push_service.Delivery.{social_tokens}
use divine_push_service.World.{with_account}
use divine_push_service.Devices.{get_tokens_with_timezone_offsets}
use divine_push_service.Tests.Campaign.{parsers}
use divine_push_service.Tests.Codes.{preferences_format, job_format}
use divine_push_service.Tests.Summaries.{actors}
use divine_push_service.Tests.Pushes.{
  parsing, writing, group_formats, settings, call, video, shared,
}

abbrev page : NewPostFanoutJob
page = record { event_json = "event"; cursor = 4; sender_name = none; attempt = 3; expires_at = 50 }

abbrev pages : FanoutQueue memory
pages = record {
  enqueued = λ id. record { value = false; expires_at = none };
  jobs = memory.zadd 10 (job_format.to_string page) ([], tt);
}

-- One of the page's deliveries fails.
abbrev page_call : PageCall
page_call = record {
  claimed_at_ms = 20_000;
  checked_at = 20;
  retry_at = 21;
  now_ms = 21_000;
  rescored_at_ms = 21_000;
  claim_fails = false;
  write_fails = false;
  rescore_fails = false;
  page = some ("carol" ∷ "dave" ∷ [], 9);
  deliver = λ event targets. ok ∷ err ∷ [];
  resolved_name = none;
}

abbrev fanout_settings : FanoutSettings
fanout_settings = record { retry_secs = 5; lease_secs = 60 }

page_queued : is_some (memory.zscore pages.jobs (job_format.to_string page)) ≡ true
page_queued = rw memory.zscore-zadd (ground (arith, eq_refl (job_format.to_string page)))

page_fresh : fanout_job_expired page 20 ≡ false
unfolding fanout_job_expired
page_fresh = refl

page_kept_example :
    let q =
      process_and_rescore memory job_format parsing
        (λ json. some video)
        fanout_settings
        page_call
        (job_format.to_string page)
        pages in
    (is_some (memory.zscore q.jobs (job_format.to_string page))
      || is_some (memory.zscore q.jobs (job_format.to_string (record page { attempt = 4 }))))
    ≡ true
unfolding page_result page_targets watcher_page_targets video_mention_targets targets_of
    find_mentioned_pubkeys pubkeys_of bounded_result
page_kept_example =
    page_kept memory job_format parsing (λ json. some video) fanout_settings page_call page video
      pages refl refl page_fresh page_queued (omega arith) refl

-- Twelve retries, of which the first three are granted here.
abbrev retries : List (ℕ × ℕ × ℕ)
retries =
    (5, 0, 1)
    ∷ (5, 60, 2)
    ∷ (5, 0, 3)
    ∷ (5, 0, 4)
    ∷ (5, 0, 5)
    ∷ (5, 0, 6)
    ∷ (5, 0, 7)
    ∷ (5, 0, 8)
    ∷ (5, 0, 9)
    ∷ (5, 0, 10)
    ∷ (5, 0, 11)
    ∷ (5, 0, 12)
    ∷ []

retries_end_example : retry_all retries page ≡ none
retries_end_example = retries_end retries page (omega arith)

abbrev service : Service
service = record {
  devices = parsers;
  parsing = parsing;
  writing = writing;
  groups = group_formats;
  text = preferences_format;
  jobs = job_format;
  crypto = record {
    is_encrypted = λ content. true;
    is_configured = true;
    decrypt_token_payload = λ content sender.
        some (record { token = "tablet"; timezone_offset_minutes = none; timezone = none });
    decrypt_nip44 = λ content sender. none;
    parse_preferences = λ json. none;
    trim = λ text. text;
  };
  is_above = bytes_above;
  event_json = λ event. "event";
  profile_name = λ pubkey. none;
  format_content = λ content. none;
  public_key = none;
}

abbrev handler_settings : HandlerSettings
handler_settings = record { push = settings; notify_list_max_creators = 500 }

abbrev handler_call : HandlerCall
handler_call = record {
  received_at = 129_600;
  claim_at = 129_600;
  enqueue_at = 129_604;
  enqueue_now_ms = 129_604_000;
  expires_from = 129_604;
  is_cancelled = false;
  cancelled_before = λ i. false;
  claim_fails = false;
  list_fails = false;
  enqueue_fails = false;
  control = record { now = 129_600; write_fails = false };
  sends = λ i. call;
  is_resolved = true;
}

abbrev second_call : HandlerCall
second_call = record handler_call { received_at = 130_000; claim_at = 130_000 }

-- Alice registers a tablet.
abbrev registration : Event
registration = record video { id = "r1"; kind = 3_079; pubkey = "alice"; tags = [] }

abbrev stored : Stored memory listed actors
stored = record { shared = shared; queue = pages }

abbrev registered : Stored memory listed actors
registered =
    (handle_event memory listed actors service handler_settings handler_call live registration
      stored).stored

is_control : requires_event_claim registration ≡ true
unfolding requires_event_claim
is_control = refl

is_recent : is_beyond_replay_horizon 129_600 registration ≡ false
unfolding is_beyond_replay_horizon is_event_too_old is_notify_list
is_recent = refl

control_event_once_example :
    (handle_event memory listed actors service handler_settings second_call historical registration
      registered).stored
    ≡ registered
control_event_once_example =
    control_event_once memory listed actors service handler_settings handler_call second_call live
      historical registration stored registered is_control is_recent refl refl refl refl
      (omega arith)

abbrev targets : List NotificationTarget
targets = record { recipient = "dave"; notification_type = mention } ∷ []

not_stopped :
    is_stopped
      (send_notifications_sequential memory listed actors service handler_settings handler_call
        video targets call.copy shared).result
    ≡ false
unfolding send_notifications_sequential send_from keep_first send_notification_trigger_to_user
    is_expired is_permitted bind_and_push find_tokens tokens_at social_tokens
    get_tokens_with_timezone_offsets with_account
not_stopped = refl

sends_to_all_example :
    let sent =
      send_notifications_sequential memory listed actors service handler_settings handler_call video
        targets call.copy shared in
    let all =
      deliver_all memory listed actors service handler_settings handler_call video call.copy 0
        targets shared in
    (sent.shared ≡ all.1) × (is_ok sent.result ≡ all.0)
sends_to_all_example =
    sends_to_all memory listed actors service handler_settings handler_call video call.copy targets
      shared not_stopped
