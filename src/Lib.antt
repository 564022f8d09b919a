-- ===== src/Lib.antt =====
-- divine-push-service: push notifications for a Nostr video app, its state in Redis.
--
-- The service listens to a relay, works out who is to hear of an event, and decides in Redis
-- whether a push goes out now, later or not at all. These parts decide:
--   * the app reports foreground presence and visits; a visit begins a new generation, which fences
--     work that was taken up before it (src/activity.rs);
--   * likes and reposts of a recipient are coalesced into groups, each with its deadline; the sends
--     of a recipient draw on a token bucket and on a rolling window (src/coalesce.rs);
--   * workers claim due groups under a lease and complete or requeue them (src/coalesce.rs);
--   * each nonurgent or direct-message push reserves its identity in a budget of the account, and
--     validates the reservation before it goes to the provider (src/notification_delivery.rs);
--   * a new post goes to the author's subscribers in pages from a durable queue, each with a bounded
--     number of attempts (src/redis_store.rs, src/event_handler.rs);
--   * a due group is flushed into one summary push, which is paid for only if a device takes it
--     (src/coalesce.rs);
--   * the campaign tool offers deliveries under a lease; each is claimed, checked, pushed and reported
--     (src/campaign_delivery.rs);
--   * each device token has one owner, a timezone and a time of its last sign of life, by which it is
--     swept (src/redis_store.rs);
--   * a subscriber's list of bells replaces the last one and a reverse index of watchers with it
--     (src/redis_store.rs); an event is routed to its handler, and a push to a recipient passes the
--     gates of age, devices, preferences, history, claim, coalescing and budget
--     (src/event_handler.rs);
--   * settings are validated at the start (src/config.rs), and users choose what they hear of
--     (src/preferences.rs).
--
-- Every Lua script runs alone in Redis, so that a script is a function from the values of the keys
-- that it names to its reply and their new values, and concurrent callers are sequences of such steps.
-- A Rust function that invokes a script has the name that it has in the source.
--
--   Prelude          Booleans, options, lists and integers that the parts share
--   Redis            an interface of the sorted-set commands with their laws, and expiring keys;
--                    Redis/Memory is an implementation over lists
--   Activity         src/activity.rs; Activity/Sessions, Presence and Generations have its theorems
--   Budget           the two scripts of src/notification_delivery.rs (reserve, validate), with
--                    Budget/Caps, Spacing, Fence and Retry
--   Delivery         the rest of src/notification_delivery.rs: quiet hours, the two classes over
--                    shared keys, with Delivery/Quiet and Limits
--   Coalesce         settings and lifetimes of src/coalesce.rs; Coalesce/Tokens is
--                    `consume_recipient_token` and `refund_recipient_token`, Coalesce/Groups the
--                    stored values, Coalesce/Ingest `ingest_for_generation`, Coalesce/Queue
--                    `claim_due_group`, `complete_group` and `oldest_due_age_seconds`;
--                    Coalesce/Summary is the snapshot of a group and its payload, and Coalesce/Flush
--                    `flush_group`, stage by stage; its children follow the charge and the ways that it ends in;
--                    Coalesce/Worker is `run_coalesce_flush`
--   Claims           the claims of src/redis_store.rs (`try_claim_event`,
--                    `try_claim_recipient_event`, `claim_campaign_delivery` and their releases)
--   Devices          the device tokens of src/redis_store.rs, from `get_tokens_for_pubkey` to
--                    `cleanup_stale_tokens`; Devices/Consistency, Sweep and Runs have their theorems
--   Payload          src/models.rs, and `immediate_delivery` of src/notification_delivery.rs
--   Provider         the results of a batch (src/fcm_sender.rs) and the loops that read them
--   World            the keys of all accounts that the deliveries share
--   Campaign         src/campaign_delivery.rs: Campaign/Deliver is `deliver`, stage by stage,
--                    Campaign/Poll `poll_once`; Campaign/Deliver/Allowed, Counted and Deferred have what
--                    a push has passed, its budget and the time of a retry
--   Config           `Settings::validate` of src/config.rs; Config/Limits has what it promises the
--                    other parts
--   Preferences      src/preferences.rs; Preferences/Stored has its round trips
--   Fanout           the durable fan-out of new posts: the queue of src/redis_store.rs
--                    (`enqueue_initial_fanout_job` to `retry_fanout_job`) and the retries of
--                    src/event_handler.rs (`next_fanout_retry`, `schedule_fanout_retry`); Fanout/Queue
--                    and Fanout/Retry have their theorems
--                    Fanout/Page is `process_fanout_job` and a turn of `run_new_post_fanout`
--   Notify           the bells of src/redis_store.rs (`replace_notify_subscriptions`,
--                    `is_notify_watcher`, the reads of watchers); Notify/Refines, Order and Bytes have
--                    the relation that they stand for
--   Events           an event of src/event_handler.rs, its targets and its references
--   Push             `send_notification_trigger_to_user` of src/event_handler.rs, stage by stage: the
--                    gates, and in Push/Answer what follows the provider's answer; Push/Call is its
--                    data and Push/Payloads its payloads; Push/Stages and Push/Gates follow a delivery from its
--                    start to the claim and from there to the provider, and Push/Once, Allowed and
--                    Edits have its theorems
--   Handler          `route_event`, the handlers and one turn of `run` of src/event_handler.rs;
--                    Handler/Control has the control events, Handler/Once and Each the theorems
--   Tests            concrete inputs
--
-- The conventions:
--   * numbers are natural numbers; the scripts' numbers are doubles whose values stay below 2^53;
--     settings that a function adds or multiplies saturate at the bound of u64 as in the source;
--   * a key is a value with an expiry (`Redis.Key`); `at_time` reads it as Redis does, and an EXPIRE
--     of an absent key leaves an expiry that the next write of the key replaces;
--   * a token is counted in milliseconds of refilling, so that the scripts' fractions are whole
--     numbers; the rounding of floating point is not modelled;
--   * the HyperLogLog, the decimal writing of numbers, the hash of a group's name and the text that
--     serde writes are parameters (`ActorCounts`, `Formats`, `Preferences.Format`, `JobFormat`);
--   * the text of a disposition, `i:{group}` or `b:{group}`, is a data type, and the -1 of the token
--     script is 2;
--   * `Trigger.action_hash` is the hash that the caller computes; the group that a claim script
--     returns is never the empty name, since every name has a colon;
--   * a delivery and a flush take a record of their call (`Attempt`, `FlushCall`, `PushCall`): the clock at each
--     command, the name that a claim draws, which calls fail, and the provider as a function from a
--     batch to its results; a call that fails has changed nothing; in a poll, an attempt that its
--     timeout drops leaves any keys whatever, and so does a flush of a worker;
--   * a function of several commands runs without another between them, where nothing else is said;
--     the sweep of tokens is also two steps, its reads and its pipeline;
--   * a cancellation is seen at the points where the code looks for it, before the call that it is
--     awaited with; a call that it drops halfway is not modelled;
--   * the strings that remember a video's recipients and a creator's last new post are apart from the
--     claims, of which no name begins as theirs do; an identifier of an event and a public key are
--     their texts in hexadecimal;
--   * the script of the bells runs whole; a stored stamp is the value that the script reads of it, and
--     the server's order of strings is a parameter;
--   * the copy of an event is the same for all its recipients, and whether one of them comes to
--     resolve it is a field of the call; the deliveries of a page run side by side, so that how they
--     end, and in which order, is a parameter;
--   * the groups' store has the generations that `ingest_for_generation` reads, apart from the visits
--     of the shared keys; an ingest within a delivery takes the visits' generation, and a flush reads
--     neither of the two as the other;
--   * public keys, timezones, timestamps and profiles' names are parsed and written by parameters
--     (`Parsers`, `Campaign.Formats`, `Coalesce.Summary.Names`);
--   * every loop runs over a list, so that no fuel is needed.
--
-- Not modelled: metrics and logs; failures of the connection to Redis outside the deliveries, the
-- handlers and the flush; the relay listener, the HTTP server and client, the requests to the provider,
-- the profiles of src/mention_parser.rs and cryptography, which are input and output; the call of a
-- trusted hook, `send_direct_message_notification`, which only builds the trigger of a delivery; the
-- scan of registered accounts.
mod Prelude
pub mod Redis
pub mod Activity
pub mod Budget
pub mod Delivery
pub mod Coalesce
pub mod Config
pub mod Preferences
pub mod Fanout
pub mod Claims
pub mod Payload
pub mod Provider
pub mod Devices
pub mod World
pub mod Campaign
mod Tests
pub mod Notify
pub mod Events
pub mod Push
pub mod Handler
