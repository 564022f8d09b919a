-- ===== src/Tests/Codes.antt =====
-- Concrete formats: numbers in tallies, and strings with a mark before each character.
use Prim.Native.Nat.{zero, suc}
use Prim.Native.Char.{Char}
use Prim.Native.String as S
use divine_push_service.Prelude.{
  ℕ, ◌+◌, ◌≡◌, String, Bool, true, false, Option, none, some, List, [], ◌∷◌, str_eq, if◌then◌else◌,
  arith, refl, ap,
}
use divine_push_service.Preferences.{Format}
use divine_push_service.Fanout.{JobFormat, NewPostFanoutJob}

is_mark : Char → Bool
is_mark c = str_eq (S.◌∷◌ c S.[]) "1"

-- The numbers of a string of tallies, each ended by a comma.
pub numbers : ℕ → String → List ℕ
unfolding is_mark
numbers n S.[] = []
numbers n (S.◌∷◌ c s) =
    let more = numbers (suc n) s in let next = numbers 0 s in if is_mark c then more else n ∷ next

tally : ℕ → String → String
tally zero s = S.◌∷◌ "," s
tally (suc n) s = S.◌∷◌ "1" (tally n s)

pub tallies : List ℕ → String
unfolding tally
tallies [] = S.[]
tallies (n ∷ l) = tally n (tallies l)

numbers-tally : (m n : ℕ) (s : String) → numbers m (tally n s) ≡ (m + n) ∷ numbers 0 s
unfolding numbers tally
numbers-tally m zero s = ap (λ k. k ∷ numbers 0 s) (omega arith)
numbers-tally m (suc n) s = rw (numbers-tally (suc m) n s) (ap (λ k. k ∷ numbers 0 s) (omega arith))

pub numbers-tallies : (l : List ℕ) → numbers 0 (tallies l) ≡ l
unfolding numbers tallies
numbers-tallies [] = refl
numbers-tallies (n ∷ l) =
    rw (numbers-tally 0 n (tallies l), numbers-tallies l) (ap (λ k. k ∷ l) (omega arith))

pub write_bool : Bool → String
write_bool true = "1"
write_bool false = "0"

pub read_bool-write_bool : (b : Bool) → some (str_eq (write_bool b) "1") ≡ some b
unfolding write_bool
read_bool-write_bool true = refl
read_bool-write_bool false = refl

abbrev pub preferences_format : Format
preferences_format = record {
  to_string = λ prefs. tallies prefs.kinds;
  from_str = λ s. some (record { kinds = numbers 0 s });
  from_str-to_string = λ prefs. ap (λ l. some (record { kinds = l })) (numbers-tallies prefs.kinds);
  write_bool = write_bool;
  read_bool = λ s. some (str_eq s "1");
  read_bool-write_bool = read_bool-write_bool;
}

-- The first tally of a string, and the rest.
read_number : String → ℕ × String
unfolding is_mark
read_number S.[] = (0, S.[])
read_number (S.◌∷◌ c s) =
    let more = read_number s in if is_mark c then (suc more.0, more.1) else (0, s)

read_number-tally : (n : ℕ) (s : String) → read_number (tally n s) ≡ (n, s)
unfolding read_number tally
read_number-tally zero s = refl
read_number-tally (suc n) s = rw (read_number-tally n s) refl

-- A marked string, and the rest.
marked : String → String → String
marked S.[] s = S.◌∷◌ "," s
marked (S.◌∷◌ c a) s = S.◌∷◌ "1" (S.◌∷◌ c (marked a s))

read_marked : String → String × String
unfolding is_mark
read_marked S.[] = (S.[], S.[])
read_marked (S.◌∷◌ m S.[]) = (S.[], S.[])
read_marked (S.◌∷◌ m (S.◌∷◌ c s)) =
    let more = read_marked s in if is_mark m then (S.◌∷◌ c more.0, more.1) else (S.[], S.◌∷◌ c s)

read_marked-marked : (a s : String) → read_marked (marked a s) ≡ (a, s)
unfolding read_marked marked
read_marked-marked S.[] S.[] = refl
read_marked-marked S.[] (S.◌∷◌ c s) = refl
read_marked-marked (S.◌∷◌ c a) s = rw (read_marked-marked a s) refl

write_name : Option String → String
unfolding marked
write_name none = ","
write_name (some name) = S.◌∷◌ "1" (marked name S.[])

read_name : String → Option String
unfolding is_mark read_marked
read_name S.[] = none
read_name (S.◌∷◌ m s) = if is_mark m then some (read_marked s).0 else none

read_name-write_name : (name : Option String) → read_name (write_name name) ≡ name
unfolding read_name write_name
read_name-write_name none = refl
read_name-write_name (some name) = rw (read_marked-marked name S.[]) refl

pub write_job : NewPostFanoutJob → String
write_job job =
    tally job.cursor (
      tally job.attempt (tally job.expires_at (marked job.event_json (write_name job.sender_name))))

pub read_job : String → NewPostFanoutJob
read_job s0 =
    let (cursor, s1) = read_number s0 in
    let (attempt, s2) = read_number s1 in
    let (expires_at, s3) = read_number s2 in
    let (event_json, s4) = read_marked s3 in
    record {
      event_json = event_json;
      cursor = cursor;
      sender_name = read_name s4;
      attempt = attempt;
      expires_at = expires_at;
    }

pub read_job-write_job : (job : NewPostFanoutJob) → some (read_job (write_job job)) ≡ some job
unfolding read_job write_job
read_job-write_job job =
    let s4 = write_name job.sender_name in
    let s3 = marked job.event_json s4 in
    let s2 = tally job.expires_at s3 in
    rw
      (
        read_number-tally job.cursor (tally job.attempt s2),
        read_number-tally job.attempt s2,
        read_number-tally job.expires_at s3,
        read_marked-marked job.event_json s4,
        read_name-write_name job.sender_name,
      )
      refl

abbrev pub job_format : JobFormat
job_format = record {
  to_string = write_job;
  from_str = λ s. some (read_job s);
  from_str-to_string = read_job-write_job;
}
