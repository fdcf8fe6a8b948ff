-- ===== src/Auth/Rotation.antt =====
-- A refresh token is good for one refresh.
use mathlib.Core.Path.{subst}
use livequiz_platform.Prelude.{
  ℕ, ◌+◌, ◌-◌, ◌<◌, max, ◌≡◌, ap, sym, ◌∙◌, String, true, false, not, Option, none, some, ltb,
  str_eq, if◌then◌else◌, arith,
}
use livequiz_platform.Errors.{
  Result, ok, err, auth_required, forbidden, bind-ok, require-ok, or_raise-ok,
}
use livequiz_platform.Store.{User}
use livequiz_platform.Rooms.Capacity.{text_refl}
use livequiz_platform.Auth.{
  Claims, Decoded, expired, invalid, decoded, AuthWorld, refresh_type, is_live, is_jti_revoked,
  revoke_jti, ttl_remaining, claims_or_raise, decode_token, refresh, active_user,
}

claims_of : (d : Decoded) (c : Claims) → claims_or_raise d ≡ ok c → d ≡ decoded c
claims_of expired c h = cc
claims_of invalid c h = cc
claims_of (decoded claims) c h = cc

pub decode_token-ok :
    {Token : Type 0} (jwt : Token → ℕ → Decoded) (token : Token) (now : ℕ) (t : String) {c : Claims}
    → decode_token jwt token now t ≡ ok c
    → (jwt token now ≡ decoded c) × (str_eq c.token_type t ≡ true)
decode_token-ok jwt token now t {c} h =
    let (d, h1, e) = bind-ok (claims_or_raise (jwt token now)) _ h in
    let (typed, same) = require-ok (str_eq d.token_type t) forbidden 403 _ h1 in
    let it : d ≡ c = cc in
    (
      claims_of (jwt token now) c (e ∙ ap ok it),
      subst (λ (x : Claims). str_eq x.token_type t ≡ true) it typed,
    )

abbrev revoked_of : Result (User × AuthWorld) → String → Option ℕ
revoked_of (ok (u, w)) = w.revoked
revoked_of (err e) = λ _. none

-- What a refresh that succeeded went through.
refresh-ok :
    (jwt : String → ℕ → Decoded) (token : String) (now : ℕ) (w : AuthWorld) {user : User}
    {after : AuthWorld}
    → refresh jwt token now w ≡ ok (user, after)
    → (claims : Claims) × (jwt token now ≡ decoded claims)
      × (is_jti_revoked now claims.jti w ≡ false)
      × (after.revoked ≡ (revoke_jti now claims.jti (ttl_remaining now claims) w).revoked)
unfolding refresh
refresh-ok jwt token now w h =
    let (claims, h1, read) = bind-ok (decode_token jwt token now refresh_type) _ h in
    let (fresh, h2) = require-ok (not (is_jti_revoked now claims.jti w)) auth_required 401 _ h1 in
    let (id, has_sub, h3) = or_raise-ok claims.sub auth_required 401 _ h2 in
    let (u, found, h4) = or_raise-ok (active_user id w.db) auth_required 401 _ h3 in
    (
      claims,
      (decode_token-ok jwt token now refresh_type read).0,
      ground arith,
      sym (ap revoked_of h4),
    )

held_until : (now later exp : ℕ) → later < exp → ltb later (now + max 1 (max 1 (exp - now))) ≡ true
held_until now later exp l = ground arith

-- A JWT library reads a token as the same claims at any time, and only before they expire.
module _ (jwt : String → ℕ → Decoded)
    (same_claims : (token : String) (a b : ℕ) (c d : Claims)
      → jwt token a ≡ decoded c
      → jwt token b ≡ decoded d
      → c ≡ d)
    (not_expired : (token : String) (now : ℕ) (c : Claims)
      → jwt token now ≡ decoded c
      → now < c.exp) where
  -- A refresh token that was used is refused from then on, whenever it comes again.
  pub refresh_again :
      (token : String) (now later : ℕ) (w : AuthWorld) (user : User) (after : AuthWorld)
      (r : User × AuthWorld)
      → refresh jwt token now w ≡ ok (user, after)
      → ¬ (refresh jwt token later after ≡ ok r)
  refresh_again token now later w user after (u2, w2) first second =
      let (c, read, fresh, keys) = refresh-ok jwt token now w first in
      let (d, read2, fresh2, keys2) = refresh-ok jwt token later after second in
      let same : c ≡ d = same_claims token now later c d read read2 in
      let late : later < d.exp = not_expired token later d read2 in
      let own : str_eq c.jti c.jti ≡ true = text_refl c.jti in
      let free : is_jti_revoked later c.jti after ≡ false =
        subst (λ (x : Claims). is_jti_revoked later x.jti after ≡ false) (sym same) fresh2 in
      let key : after.revoked c.jti ≡ some (now + max 1 (ttl_remaining now c)) =
        ap (λ f. f c.jti) keys
        ∙ ap (λ b. if b then some (now + max 1 (ttl_remaining now c)) else w.revoked c.jti) own in
      let still : ltb later (now + max 1 (ttl_remaining now c)) ≡ true =
        held_until now later c.exp (subst (λ (x : Claims). later < x.exp) (sym same) late) in
      let held : is_jti_revoked later c.jti after ≡ true = ap (is_live later) key ∙ still in cc
