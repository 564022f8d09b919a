-- ===== src/Tests/Accounts.antt =====
-- One account's sessions and visits at concrete times.
use divine_push_service.Prelude.{◌≤◌, ◌<◌, ◌≡◌, [], none, some, refl, arith, true}
use divine_push_service.Redis.{at_time}
use divine_push_service.Redis.Memory.{memory}
use divine_push_service.Redis.Entries.{find, without, insert, fresh, count}
use divine_push_service.Activity.{
  Account, ActivityUpdate, Clock, foreground, background, no_session, no_visits, ok, visit,
  record_activity, current_generation, generation_for_work, max_sessions_per_account,
}
use divine_push_service.Activity.Sessions.{record_activity-bounded}
use divine_push_service.Activity.Generations.{
  AreIssued, visit_fences_work, generation_for_work_kept,
}

abbrev quiet_account : Account memory
quiet_account = record {
  registered = true;
  sessions = λ id. record { value = no_session; expires_at = none };
  active = record { value = ([], tt); expires_at = none };
  visits = record { value = no_visits; expires_at = none };
  visit_sequence = none;
  retained = record { value = ([], tt); expires_at = none };
  work = λ id. record { value = none; expires_at = none };
}

abbrev opened : ActivityUpdate
opened = record { session_id = "phone"; sequence = 1; visit = 1; state = foreground }

abbrev closed : ActivityUpdate
closed = record { session_id = "laptop"; sequence = 3; visit = 2; state = background }

abbrev morning : Clock
morning = record { secs = 1_000; micros = 5 }

abbrev noon : Clock
noon = record { secs = 1_100; micros = 7 }

abbrev opened_account : Account memory
opened_account = (record_activity memory morning opened quiet_account).1

opened_visit : (record_activity memory morning opened quiet_account).0 ≡ ok visit
unfolding record_activity find without insert fresh count
opened_visit = refl

record_activity-bounded_example :
    memory.zcard (record_activity memory noon closed quiet_account).1.retained.value
    ≤ max_sessions_per_account
record_activity-bounded_example =
    record_activity-bounded memory noon closed quiet_account (omega arith)

phone_lease :
    memory.zscore (at_time 1_100 memory.no_members opened_account.active).value "phone" ≡ some 1_180
unfolding record_activity find without insert fresh count
phone_lease = refl

-- An account of one visit, its work "like" bound to it.
abbrev bound_account : Account memory
bound_account = record {
  registered = true;
  sessions = λ id. record { value = no_session; expires_at = none };
  active = record { value = ([], tt); expires_at = none };
  visits = record { value = record no_visits { generation = some 7 }; expires_at = none };
  visit_sequence = some 7;
  retained = record { value = ([], tt); expires_at = none };
  work = λ id. record { value = some 7; expires_at = none };
}

bound_visit : (record_activity memory noon opened bound_account).0 ≡ ok visit
unfolding record_activity find without insert fresh count
bound_visit = refl

bound_account-AreIssued : AreIssued memory bound_account
bound_account-AreIssued = record { of_visits = omega arith; of_work = λ id. omega arith }

visit_fences_work_example :
    7 < current_generation memory 1_100 (record_activity memory noon opened bound_account).1
visit_fences_work_example =
    visit_fences_work memory noon opened bound_account "like" 7 bound_account-AreIssued bound_visit
      refl

generation_for_work_kept_example :
    let (g, a) = generation_for_work memory morning "like" 3_600 bound_account in
    (generation_for_work memory noon "like" 60 (record_activity memory noon opened a).1).0 ≡ g
generation_for_work_kept_example =
    generation_for_work_kept memory morning noon noon opened "like" 3_600 60 bound_account refl
      (omega arith)
