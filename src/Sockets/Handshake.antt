-- ===== src/Sockets/Handshake.antt =====
-- Who gets a socket: `_authenticate` of backend/app/ws/router.py.
use livequiz_platform.Prelude.{ℕ, String, Bool, true, false, not, Option, none, some, str_eq, ◌==◌}
use livequiz_platform.Errors.{Result, ok, err}
use livequiz_platform.Store.{Db}
use livequiz_platform.Match.Queries.{room_by_code}
use livequiz_platform.Auth.{Decoded, participant_type, decode_token}

abbrev pub close_unauthorized : ℕ
close_unauthorized = 4401

-- The socket is closed before it is accepted, or the participant, the nickname and whether it is the
-- host.
pub data Handshake : Type 0 where
  refused : (close_code : ℕ) → (reason : String) → Handshake
  authenticated : (participant_id : ℕ) → (nickname : String) → (is_host : Bool) → Handshake

abbrev pub unauthorized : String → Handshake
unauthorized reason = refused close_unauthorized reason

abbrev pub close_unless : Bool → (reason : String) → Handshake → Handshake
close_unless true reason next = next
close_unless false reason next = unauthorized reason

abbrev pub or_close {ℓ} : {A : Type ℓ} → Option A → (reason : String) → (A → Handshake) → Handshake
or_close none reason next = unauthorized reason
or_close (some a) reason next = next a

abbrev pub returned {ℓ} : {A : Type ℓ} → Result A → Option A
returned (err e) = none
returned (ok a) = some a

-- `str(claims.get("room_code"))`
abbrev pub str_of : Option String → String
str_of none = "None"
str_of (some s) = s

abbrev pub or_blank : Option String → String
or_blank none = ""
or_blank (some s) = s

-- `token` is the query parameter, empty when it is missing.
unfoldable pub authenticate :
    (jwt : String → ℕ → Decoded)
    → (token : String) → (now : ℕ) → (room_code : String) → Db
    → Handshake
authenticate jwt token now room_code db = close_unless (not (str_eq token "")) "missing token" (
    or_close (returned (decode_token jwt token now participant_type)) "invalid token" λ claims.
      close_unless (str_eq (str_of claims.room_code) room_code) "room mismatch" (
        or_close claims.participant_id "malformed token" λ participant_id.
          or_close (room_by_code room_code db) "room not found" λ room.
            authenticated participant_id (or_blank claims.nickname)
              (participant_id == room.host_id)))
