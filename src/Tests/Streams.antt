-- ===== src/Tests/Streams.antt =====
-- Runs of the relay under failures, of the pages, and of a refresh.
use go_commerce.Base.{
  ℕ, ◌≡◌, refl, true, false, Option, none, some, [], ◌∷◌, arith, ◌==◌, if◌then◌else◌,
}
use go_commerce.Base.Int.{pos}
use go_commerce.Base.Text.{Text, codes, text_eq}
use go_commerce.Orders.Queries.{newest_first}
use go_commerce.Workers.Dispatch.{is_ok}
use go_commerce.Auth.{user, refresh_type, Claims, Parsed, valid, Sessions, refresh}
use go_commerce.Auth.Rotation.{refresh_is_single_use}
use go_commerce.Products.{listed, list_products}
use go_commerce.Products.Pages.{continued, pages_continue}
use go_commerce.Relay.{relay_once}
use go_commerce.Relay.Delivery.{Faithful, relay_loses_nothing}
use go_commerce.Tests.{env, later, rice, outbox, catalogue}

abbrev event_ids : ℕ → Text
event_ids n = if n == 1 then codes "e1" else codes "e2"

outbox-Faithful : Faithful event_ids outbox
outbox-Faithful = record {
  keyed = (refl, (refl, tt));
  delivered = ((λ h. absurd (cc)), ((λ h. absurd (cc)), tt));
}

relay_loses_nothing_example : Faithful event_ids (relay_once outbox).2
relay_loses_nothing_example = relay_loses_nothing event_ids outbox outbox-Faithful

pages_continue_example :
    continued (list_products none 0 (pos 2) catalogue) (listed none catalogue)
    ≡ (4, rice) ∷ (2, rice) ∷ (1, rice) ∷ []
unfolding listed newest_first
pages_continue_example =
    pages_continue none 0 (pos 2) catalogue
      ((omega arith, (omega arith, tt)), ((omega arith, tt), (tt, tt)))

abbrev first_claims : Claims
first_claims = record { user_id = 1; role = user; token_type = refresh_type; id = codes "u0" }

abbrev sessions : Sessions
sessions = record {
  users =
      (1, record { name = codes "a"; email = codes "a@b"; password_hash = []; role = user }) ∷ [];
  serial = 2;
  live = codes "u0" ∷ [];
  replies = [];
}

abbrev hashing : Text → Option Text
hashing s = some s

abbrev signing : Claims → Text
signing c = c.id

abbrev parsing : Text → Parsed
parsing s = valid first_claims

refresh_is_single_use_example :
    is_ok
      (refresh hashing text_eq signing parsing true later
        (codes "t")
        (refresh hashing text_eq signing parsing true env (codes "t") sessions).1).0
    ≡ false
unfolding text_eq refresh
refresh_is_single_use_example =
    refresh_is_single_use hashing text_eq signing parsing env later (codes "t") first_claims
      sessions refl refl refl
