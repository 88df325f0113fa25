-- ===== src/Notify.antt =====
-- internal/http/notify: the fan-out of product events to the connected clients. The frames of a
-- WebSocket (gorilla/websocket) are not this code: whether a write to a client succeeds is a
-- parameter of a broadcast.
use go_commerce.Base.{
  ℕ, ◌*◌, Bool, true, false, not, ◌&&◌, ◌||◌, Option, none, some, List, [], ◌∷◌, ◌++◌, ◌==◌, ltb,
  if◌then◌else◌, length, where_rows, first_row, is_some,
}
use go_commerce.Base.Text.{Text, codes, text_eq, is_empty, trim_space}
use go_commerce.Domain.Errors.{Result, ok, err}
use go_commerce.Workers.Payload.{Message}
use go_commerce.Auth.{Claims, Parsed}
use go_commerce.Access.{parse_access_token}
pub mod Fanout

-- The connections, each once, and what each has been sent.
pub record Hub : Type 0 where
  pub clients : List ℕ
  pub delivered : List (ℕ × Message)

unfoldable pub add_client : ℕ → Hub → Hub
add_client conn h =
    if is_some (first_row (λ c. c == conn) h.clients)
    then h
    else record h { clients = conn ∷ h.clients }

unfoldable pub remove_client : ℕ → Hub → Hub
remove_client conn h = record h { clients = where_rows (λ c. not (c == conn)) h.clients }

unfoldable pub client_count : Hub → ℕ
client_count h = length h.clients

-- The loop over the clients read: a client whose write fails is dropped.
unfoldable pub write_all : (ℕ → Bool) → Message → List ℕ → Hub → Hub
unfolding remove_client
write_all writes event [] h = h
write_all writes event (conn ∷ conns) h = write_all writes event conns (
    if writes conn
    then record h { delivered = h.delivered ++ (conn, event) ∷ [] }
    else remove_client conn h)

unfoldable pub broadcast : (ℕ → Bool) → Message → Hub → Hub
unfolding write_all
broadcast writes event h = write_all writes event h.clients h

-- What `consumer.Fetch` gives, while the context is not cancelled.
pub data Fetched : Type 0 where
  fetched : Message → Fetched
  fetch_failed : Fetched

pub record Notifier : Type 0 where
  pub hub : Hub
  pub backoff : ℕ

-- One turn of the loop of `Run`, the wait in seconds. The commit that follows is not modelled.
unfoldable pub notify_turn : (ℕ → Bool) → Fetched → Notifier → Notifier
unfolding broadcast
notify_turn writes fetch_failed n = record n {
  backoff = if ltb n.backoff 30 then n.backoff * 2 else n.backoff;
}
notify_turn writes (fetched msg) n = record {
  hub = if is_empty msg.event_id then n.hub else broadcast writes msg n.hub;
  backoff = 1;
}

abbrev pub allows_origin : Text → List Text → Bool
unfolding text_eq
allows_origin origin [] = false
allows_origin origin (o ∷ os) = text_eq o origin || allows_origin origin os

abbrev pub is_wildcard : List Text → Bool
unfolding text_eq
is_wildcard [] = true
is_wildcard (o ∷ []) = text_eq o (codes "*")
is_wildcard (o ∷ p ∷ os) = false

-- `checkOrigin`, from the allowed origins, whether this is production, and the header.
unfoldable pub check_origin : List Text → Bool → Text → Bool
unfolding text_eq
check_origin origins is_production origin =
    if is_wildcard origins
    then not is_production
    else is_empty origin || allows_origin origin origins

pub record Handshake : Type 0 where
  pub is_upgrade : Bool
  pub query_key : Text
  pub apikey : Text
  pub x_api_key : Text
  pub token : Text

-- The first of the three places that holds a key.
abbrev pub offered_key : Handshake → Text
unfolding trim_space
offered_key r =
    if not (is_empty (trim_space r.query_key))
    then trim_space r.query_key
    else if not (is_empty r.apikey)
    then r.apikey
    else r.x_api_key

abbrev pub wrong_key : Text → Handshake → Bool
unfolding trim_space text_eq
wrong_key expected r = not (is_empty expected) && not (text_eq (offered_key r) expected)

abbrev pub status_of : Result Claims → Option ℕ
status_of (ok c) = none
status_of (err e) = some 401

-- `authenticate`: the status that the request is refused with, if it is.
unfoldable pub authenticate : (Text → Parsed) → Text → Handshake → Option ℕ
unfolding parse_access_token trim_space text_eq
authenticate parse expected r =
    if not r.is_upgrade
    then some 426
    else if wrong_key expected r
    then some 401
    else status_of (parse_access_token parse (trim_space r.token))
