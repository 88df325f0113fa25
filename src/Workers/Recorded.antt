-- ===== src/Workers/Recorded.antt =====
-- What the audit has kept of an event that it acknowledges, and what it does with one again.
use go_commerce.Base.{
  ℕ, zero, suc, ◌≡◌, refl, Bool, true, false, ◌&&◌, List, [], ◌∷◌, ◌++◌, if◌then◌else◌, Option,
  none, some, not, first_row, is_some, ◌⊎◌, inl, inr, Bool-cases, arith,
}
use go_commerce.Base.Text.{Text, text_eq, text_eq_refl, is_empty}
use go_commerce.Workers.Payload.{Message}
use go_commerce.Workers.Audit.{
  Reply, served, unsent, unheard, stopped, Record, DeadLetter, Sinks, Cause, undecodable,
  insert_failed, next_reply, other_replies, is_recorded, heard, arrives, is_duplicate,
  insert_answer, is_taken, insert_one, insert_record, is_stopped, letter_of, dead_letter, record_of,
  after_attempt, insert_attempts, handle_audit, max_retries,
}

-- The dead letter of a message: its key, and what JSON makes of the bytes received.
abbrev pub is_letter_of : Option (Text → Text) → Message → DeadLetter → Bool
is_letter_of none msg l = false
is_letter_of (some write) msg l =
    text_eq l.key msg.event_id && text_eq l.raw_message (write msg.raw_body)

abbrev pub Handled : Option (Text → Text) → Message → Sinks → Type 0
Handled dlq msg s =
    (is_recorded msg.event_id s.documents ≡ true)
    ⊎ (is_some (first_row (is_letter_of dlq msg) s.dead_letters) ≡ true)

pub is_some-append :
    {A : Type 0} (p : A → Bool) (xs : List A) (x : A)
    → p x ≡ true
    → is_some (first_row p (xs ++ x ∷ [])) ≡ true
is_some-append p [] x h = rw h refl
is_some-append p (y ∷ ys) x h = elim (Bool-cases (p y)) [
  | inl e ↦ rw e refl
  | inr e ↦ rw e (is_some-append p ys x h)
]

is_recorded-append : (r : Record) (rs : List Record) → is_recorded r.event_id (rs ++ r ∷ []) ≡ true
unfolding is_recorded
is_recorded-append r rs =
    is_some-append (λ q. text_eq q.event_id r.event_id) rs r (text_eq_refl r.event_id)

pub heard-arrives : (r : Reply) → heard r ≡ true → arrives r ≡ true
heard-arrives served h = refl
heard-arrives unsent h = absurd (cc)
heard-arrives unheard h = refl
heard-arrives stopped h = absurd (cc)

dead_letter-Handled :
    (dlq : Option (Text → Text)) (now : ℕ) (msg : Message) (c : Cause) (s : Sinks)
    → (dead_letter dlq now msg c s).0 ≡ true
    → Handled dlq msg (dead_letter dlq now msg c s).1
unfolding dead_letter
dead_letter-Handled none now msg c s h = absurd (cc)
dead_letter-Handled (some write) now msg c s h = rw (heard-arrives (next_reply s.replies) h) (
    inr (
      is_some-append (is_letter_of (some write) msg) s.dead_letters (letter_of write now msg c)
        (rw (text_eq_refl msg.event_id, text_eq_refl (write msg.raw_body)) refl)))

after_attempt-Handled :
    (dlq : Option (Text → Text)) (msg : Message) (reply : Reply) (r : Bool × Sinks)
    (rest : Sinks → Bool × Sinks)
    → (r.0 ≡ true → Handled dlq msg r.1)
    → ((s : Sinks) → (rest s).0 ≡ true → Handled dlq msg (rest s).1)
    → (after_attempt reply r rest).0 ≡ true
    → Handled dlq msg (after_attempt reply r rest).1
after_attempt-Handled dlq msg reply (true, s) rest h k e = h refl
after_attempt-Handled dlq msg stopped (false, s) rest h k e = absurd (cc)
after_attempt-Handled dlq msg served (false, s) rest h k e = k s e
after_attempt-Handled dlq msg unsent (false, s) rest h k e = k s e
after_attempt-Handled dlq msg unheard (false, s) rest h k e = k s e

duplicate-recorded :
    (r : Record) (s : Sinks) → is_duplicate r s ≡ true → is_recorded r.event_id s.documents ≡ true
unfolding is_duplicate
duplicate-recorded r s d = ground arith

insert_record-Handled :
    (dlq : Option (Text → Text)) (now : ℕ) (msg : Message) (s : Sinks)
    → (insert_record (record_of now msg) s).0 ≡ true
    → Handled dlq msg (insert_record (record_of now msg) s).1
unfolding insert_record insert_one
insert_record-Handled dlq now msg s h =
    inl (stored (next_reply s.replies) (is_duplicate (record_of now msg) s) refl h)
  where
    stored :
        (reply : Reply) (d : Bool)
        → is_duplicate (record_of now msg) s ≡ d
        → is_taken (insert_answer d reply) ≡ true
        → is_recorded msg.event_id
            (if arrives reply && not d then s.documents ++ record_of now msg ∷ [] else s.documents)
          ≡ true
    stored served true e k = duplicate-recorded (record_of now msg) s e
    stored served false e k = is_recorded-append (record_of now msg) s.documents
    stored unsent d e k = absurd (cc)
    stored unheard d e k = absurd (cc)
    stored stopped d e k = absurd (cc)

insert_attempts-Handled :
    (n : ℕ) (dlq : Option (Text → Text)) (now : ℕ) (msg : Message) (s : Sinks)
    → (insert_attempts n dlq now msg s).0 ≡ true
    → Handled dlq msg (insert_attempts n dlq now msg s).1
unfolding insert_attempts
insert_attempts-Handled zero dlq now msg s h = dead_letter-Handled dlq now msg insert_failed s h
insert_attempts-Handled (suc n) dlq now msg s h =
    after_attempt-Handled dlq msg (next_reply s.replies) _ _ (insert_record-Handled dlq now msg s)
      (insert_attempts-Handled n dlq now msg) h

if-Handled :
    (dlq : Option (Text → Text)) (msg : Message) (b : Bool) (m n : Bool × Sinks)
    → (m.0 ≡ true → Handled dlq msg m.1)
    → (n.0 ≡ true → Handled dlq msg n.1)
    → (if b then m else n).0 ≡ true
    → Handled dlq msg (if b then m else n).1
if-Handled dlq msg true m n hm hn h = hm h
if-Handled dlq msg false m n hm hn h = hn h

-- Whatever the collection and the topic of dead letters answer, a message for which `Handle`
-- returns no error, so that its offset may be committed, is recorded under its event id or is a
-- dead letter that holds what JSON makes of the bytes received (`dlq` says what that is).
pub acknowledged_is_kept :
    (dlq : Option (Text → Text)) (now : ℕ) (msg : Message) (s : Sinks)
    → (handle_audit dlq now msg s).0 ≡ true
    → Handled dlq msg (handle_audit dlq now msg s).1
unfolding handle_audit
acknowledged_is_kept dlq now msg s h =
    if-Handled dlq msg (is_empty msg.event_id) _ _ (dead_letter-Handled dlq now msg undecodable s)
      (insert_attempts-Handled max_retries dlq now msg s) h

-- One of the next `n` requests is answered before the context is cancelled.
unfoldable pub is_answered : ℕ → List Reply → Bool
is_answered zero rs = false
is_answered (suc n) rs =
    let later = is_answered n (other_replies rs) in
    if heard (next_reply rs) then true else if is_stopped (next_reply rs) then false else later

-- The message is acknowledged, and nothing is written.
pub record Absorbed (s : Sinks) (r : Bool × Sinks) : Type 0 where
  pub acknowledged : r.0 ≡ true
  pub no_document : r.1.documents ≡ s.documents
  pub no_letter : r.1.dead_letters ≡ s.dead_letters

module _ (dlq : Option (Text → Text)) (now : ℕ) (msg : Message) where
  again-duplicate :
      (s : Sinks)
      → s.is_unique ≡ true
      → is_recorded msg.event_id s.documents ≡ true
      → insert_record (record_of now msg) s
        ≡ (heard (next_reply s.replies), record s { replies = other_replies s.replies })
  unfolding insert_record insert_one is_duplicate
  again-duplicate s u k =
      rw (u, k) (rw (answers (next_reply s.replies), writes (next_reply s.replies)) refl)
    where
      answers : (reply : Reply) → is_taken (insert_answer true reply) ≡ heard reply
      answers served = refl
      answers unsent = refl
      answers unheard = refl
      answers stopped = refl

      writes : (reply : Reply) → (arrives reply && false) ≡ false
      writes served = refl
      writes unsent = refl
      writes unheard = refl
      writes stopped = refl

  attempts-Absorbed :
      (n : ℕ) (s : Sinks)
      → s.is_unique ≡ true
      → is_recorded msg.event_id s.documents ≡ true
      → is_answered n s.replies ≡ true
      → Absorbed s (insert_attempts n dlq now msg s)
  unfolding insert_attempts is_answered
  attempts-Absorbed zero s u k a = absurd (cc)
  attempts-Absorbed (suc n) s u k a = rw (again-duplicate s u k) (
      by_reply (next_reply s.replies)
        (attempts-Absorbed n (record s { replies = other_replies s.replies }) u k) a)
    where
      rest : Sinks
      rest = record s { replies = other_replies s.replies }

      same : (r : Bool × Sinks) → Absorbed rest r → Absorbed s r
      same r h = record {
        acknowledged = h.acknowledged;
        no_document = h.no_document;
        no_letter = h.no_letter;
      }

      by_reply :
          (reply : Reply)
          → (is_answered n rest.replies ≡ true → Absorbed rest (insert_attempts n dlq now msg rest))
          → (if heard reply
              then true
              else if is_stopped reply
              then false
              else is_answered n rest.replies)
            ≡ true
          → Absorbed s (after_attempt reply (heard reply, rest) (insert_attempts n dlq now msg))
      by_reply served f e = record { acknowledged = refl; no_document = refl; no_letter = refl }
      by_reply unsent f e = same (insert_attempts n dlq now msg rest) (f e)
      by_reply unheard f e = same (insert_attempts n dlq now msg rest) (f e)
      by_reply stopped f e = absurd (cc)

-- An event that has an id and is recorded already, in a collection with the unique index, is
-- acknowledged when it is delivered again, as soon as one of at most three inserts is answered
-- before the context is cancelled, and neither a document nor a dead letter is added.
pub redelivery_adds_nothing :
    (dlq : Option (Text → Text)) (now : ℕ) (msg : Message) (s : Sinks)
    → is_empty msg.event_id ≡ false
    → s.is_unique ≡ true
    → is_recorded msg.event_id s.documents ≡ true
    → is_answered 3 s.replies ≡ true
    → Absorbed s (handle_audit dlq now msg s)
unfolding handle_audit
redelivery_adds_nothing dlq now msg s i u k a = rw i (attempts-Absorbed dlq now msg 3 s u k a)
