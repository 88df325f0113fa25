-- ===== src/Workers/Audit.antt =====
-- internal/worker/audit: recording each event in a collection of documents, and dead letters. The
-- collection (MongoDB) and the topic of dead letters (Kafka) are not this code: how they answer
-- a request is a `Reply`, read from a list, one to a request. The producer of dead letters, if there
-- is one, is given by what its writing of JSON makes of a text.
use go_commerce.Base.{
  ℕ, zero, suc, Bool, true, false, not, ◌&&◌, ◌||◌, Option, none, some, List, [], ◌∷◌, ◌++◌,
  if◌then◌else◌, first_row, is_some,
}
use go_commerce.Base.Text.{Text, text_eq, is_empty}
use go_commerce.Domain.Order.{EventType}
use go_commerce.Store.Models.{Payload}
use go_commerce.Workers.Payload.{Message}

-- A request is served, does not arrive, is served though its answer is lost, or does not arrive
-- and the context is cancelled before the next attempt.
pub data Reply : Type 0 where
  served unsent unheard stopped : Reply

pub record Record : Type 0 where
  pub event_id : Text
  pub event_type : EventType
  pub payload : Payload
  pub processed_at : ℕ

pub data Cause : Type 0 where
  undecodable insert_failed : Cause

pub record DeadLetter : Type 0 where
  pub key : Text
  pub event_type : EventType
  pub cause : Cause
  pub raw_message : Text
  pub failed_at : ℕ

pub record Sinks : Type 0 where
  pub documents : List Record
  pub dead_letters : List DeadLetter
  pub replies : List Reply
  pub is_unique : Bool

abbrev pub next_reply : List Reply → Reply
next_reply [] = served
next_reply (r ∷ rs) = r

abbrev pub other_replies : List Reply → List Reply
other_replies [] = []
other_replies (r ∷ rs) = rs

unfoldable pub is_recorded : Text → List Record → Bool
is_recorded id rs = is_some (first_row (λ r. text_eq r.event_id id) rs)

-- A unique index on `eventId` is refused to a collection that has an event twice.
unfoldable pub has_repeats : List Record → Bool
unfolding is_recorded
has_repeats [] = false
has_repeats (r ∷ rs) = is_recorded r.event_id rs || has_repeats rs

abbrev pub heard : Reply → Bool
heard served = true
heard _ = false

abbrev pub arrives : Reply → Bool
arrives served = true
arrives unheard = true
arrives _ = false

-- `EnsureIndexes`, and whether it returned no error.
unfoldable pub ensure_indexes : Sinks → Bool × Sinks
unfolding has_repeats
ensure_indexes s = (
  heard (next_reply s.replies) && (s.is_unique || not (has_repeats s.documents)),
  record s {
    is_unique = s.is_unique || (arrives (next_reply s.replies) && not (has_repeats s.documents));
    replies = other_replies s.replies;
  },
)

-- What the driver's `InsertOne` returns.
pub data Inserted : Type 0 where
  inserted duplicate_key unanswered : Inserted

-- The document would repeat a key of the unique index.
unfoldable pub is_duplicate : Record → Sinks → Bool
unfolding is_recorded
is_duplicate r s = s.is_unique && is_recorded r.event_id s.documents

abbrev pub insert_answer : Bool → Reply → Inserted
insert_answer duplicate reply =
    if heard reply then (if duplicate then duplicate_key else inserted) else unanswered

-- `InsertOne`: the server refuses a document that repeats a key of the unique index.
unfoldable pub insert_one : Record → Sinks → Inserted × Sinks
unfolding is_duplicate
insert_one r s = (
  insert_answer (is_duplicate r s) (next_reply s.replies),
  record s {
    documents =
        if arrives (next_reply s.replies) && not (is_duplicate r s)
        then s.documents ++ r ∷ []
        else s.documents;
    replies = other_replies s.replies;
  },
)

-- A duplicate key is a success.
abbrev pub is_taken : Inserted → Bool
is_taken inserted = true
is_taken duplicate_key = true
is_taken unanswered = false

-- `MongoStore.Insert`, and whether it returned no error.
unfoldable pub insert_record : Record → Sinks → Bool × Sinks
unfolding insert_one
insert_record r s = (is_taken (insert_one r s).0, (insert_one r s).1)

-- The letter as it is published: `write` is what JSON makes of the bytes received.
abbrev pub letter_of : (Text → Text) → ℕ → Message → Cause → DeadLetter
letter_of write now msg cause = record {
  key = msg.event_id;
  event_type = msg.event_type;
  cause = cause;
  raw_message = write msg.raw_body;
  failed_at = now;
}

-- `deadLetter`, and whether it returned no error; `dlq` is the producer `p.dlq`.
unfoldable pub dead_letter : Option (Text → Text) → ℕ → Message → Cause → Sinks → Bool × Sinks
dead_letter none now msg cause s = (false, s)
dead_letter (some write) now msg cause s = (
  heard (next_reply s.replies),
  record s {
    dead_letters =
        if arrives (next_reply s.replies)
        then s.dead_letters ++ letter_of write now msg cause ∷ []
        else s.dead_letters;
    replies = other_replies s.replies;
  },
)

abbrev pub record_of : ℕ → Message → Record
record_of now msg = record {
  event_id = msg.event_id;
  event_type = msg.event_type;
  payload = msg.payload;
  processed_at = now;
}

abbrev pub is_stopped : Reply → Bool
is_stopped stopped = true
is_stopped _ = false

-- What a failed attempt is followed by: the error of the context if it is done, else the rest.
abbrev pub after_attempt : Reply → Bool × Sinks → (Sinks → Bool × Sinks) → Bool × Sinks
after_attempt reply (true, s) rest = (true, s)
after_attempt reply (false, s) rest = if is_stopped reply then (false, s) else rest s

-- The loop, with the number of attempts left, and the dead letter behind it.
unfoldable pub insert_attempts : ℕ → Option (Text → Text) → ℕ → Message → Sinks → Bool × Sinks
unfolding insert_record dead_letter
insert_attempts zero dlq now msg s = dead_letter dlq now msg insert_failed s
insert_attempts (suc n) dlq now msg s =
    after_attempt (next_reply s.replies) (insert_record (record_of now msg) s)
      (insert_attempts n dlq now msg)

abbrev pub max_retries : ℕ
max_retries = 3

-- `Processor.Handle`, and whether it returned no error.
unfoldable pub handle_audit : Option (Text → Text) → ℕ → Message → Sinks → Bool × Sinks
unfolding dead_letter insert_attempts
handle_audit dlq now msg s =
    if is_empty msg.event_id
    then dead_letter dlq now msg undecodable s
    else insert_attempts max_retries dlq now msg s
