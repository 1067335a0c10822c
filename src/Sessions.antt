-- ===== src/Sessions.antt =====
-- Session tokens and the current user (src/vision_bill/security/session.py and
-- src/vision_bill/security/dependencies.py). Printing and reading of UUIDs and ints and the HMAC
-- are the interface `Codec`, with what the token format relies on. `now` is in microseconds.
pub mod Tokens
pub mod Samples
mod Tests
use vision_bill.Prelude.Int.{ℤ, pos, negsuc}
use vision_bill.Prelude.Result.{Result, ok, err, ◌>>=◌}
use vision_bill.Prelude.{
  ℕ, ◌+◌, ◌*◌, ◌/◌, ◌≡◌, Bool, true, false, not, ◌&&◌, List, [], ◌∷◌, ◌++◌, Option, none, some, ltb,
  ◌==◌, if◌then◌else◌, Text, text_eq, find?, all,
}

abbrev pub dot : ℕ
dot = 46

abbrev pub has_no_dot : Text → Bool
has_no_dot s = all (λ c. not (c == dot)) s

-- `str.isascii`
abbrev pub is_ascii : Text → Bool
is_ascii s = all (λ c. ltb c 128) s

pub record Codec : Type 0 where
  pub show_id : ℕ → Text
  pub parse_id : Text → Option ℕ
  pub show_int : ℤ → Text
  pub parse_int : Text → Option ℤ
  -- `hmac_sha256(secret, message)` in hexadecimal
  pub sign : Text → Text → Text
  pub parse-show_id : (u : ℕ) → parse_id (show_id u) ≡ some u
  pub parse-show_int : (z : ℤ) → parse_int (show_int z) ≡ some z
  pub show_id-plain : (u : ℕ) → has_no_dot (show_id u) ≡ true
  pub show_int-plain : (z : ℤ) → has_no_dot (show_int z) ≡ true
  pub sign-plain : (secret message : Text) → has_no_dot (sign secret message) ≡ true
  pub sign-IsAscii : (secret message : Text) → is_ascii (sign secret message) ≡ true

-- `token.split(".")`: the part before the first dot, and the others.
abbrev pub first_part : Text → Text × List Text
first_part [] = ([], [])
first_part (c ∷ s) = let (p, ps) = first_part s in if c == dot then ([], p ∷ ps) else (c ∷ p, ps)

unfoldable pub split_dots : Text → List Text
split_dots s = let (p, ps) = first_part s in p ∷ ps

-- `time.time() > exp`
abbrev pub is_past : ℕ → ℤ → Bool
is_past now (pos exp) = ltb (exp * 1_000_000) now
is_past now (negsuc n) = true

pub record User : Type 0 where
  pub id : ℕ
  pub username : Text
  pub is_admin : Bool
  pub can_see_all : Bool

-- The status codes of the exceptions, and a TypeError that nobody catches.
pub data AuthError : Type 0 where
  unauthenticated unavailable forbidden uncaught : AuthError

pub data TypeError : Type 0 where
  type_error : TypeError

module _ (codec : Codec) where
  abbrev pub message_of : ℕ → ℤ → Text
  message_of user_id exp = codec.show_id user_id ++ dot ∷ codec.show_int exp

  unfoldable pub create_token : ℕ → ℕ → ℕ → Text → Text
  create_token now user_id max_age secret =
      let message = message_of user_id (pos (now / 1_000_000 + max_age)) in
      message ++ dot ∷ codec.sign secret message

  -- `hmac.compare_digest` takes a text only if it is ASCII.
  abbrev pub compare_digest : Text → Text → Result TypeError Bool
  compare_digest a b = if is_ascii a && is_ascii b then ok (text_eq a b) else err type_error

  abbrev pub unexpired : ℕ → ℕ → ℤ → Bool → Option ℕ
  unexpired now user_id exp false = none
  unexpired now user_id exp true = if is_past now exp then none else some user_id

  abbrev pub checked : ℕ → Text → Text → Option ℕ → Option ℤ → Result TypeError (Option ℕ)
  checked now secret sig (some user_id) (some exp) =
      compare_digest sig (codec.sign secret (message_of user_id exp)) >>= λ same.
      ok (unexpired now user_id exp same)
  checked now secret sig _ _ = ok none

  abbrev pub decode_parts : ℕ → Text → List Text → Result TypeError (Option ℕ)
  decode_parts now secret (user_id_s ∷ exp_s ∷ sig ∷ []) =
      checked now secret sig (codec.parse_id user_id_s) (codec.parse_int exp_s)
  decode_parts now secret _ = ok none

  unfoldable pub decode_token : ℕ → Text → Text → Result TypeError (Option ℕ)
  decode_token now token secret = decode_parts now secret (split_dots token)

  abbrev pub with_privilege : Bool → Option User → Result AuthError User
  with_privilege admin_can_see_all none = err unauthenticated
  with_privilege admin_can_see_all (some user) =
      ok (record user { can_see_all = user.is_admin && admin_can_see_all })

  abbrev pub user_of : List User → Bool → Option ℕ → Result AuthError User
  user_of users admin_can_see_all none = err unauthenticated
  user_of users admin_can_see_all (some id) =
      with_privilege admin_can_see_all (find? (λ (u : User). u.id == id) users)

  abbrev pub user_of_token : List User → Bool → Result TypeError (Option ℕ) → Result AuthError User
  user_of_token users admin_can_see_all (err fault) = err uncaught
  user_of_token users admin_can_see_all (ok decoded) = user_of users admin_can_see_all decoded

  abbrev pub user_of_cookie : ℕ → List User → Text → Bool → Option Text → Result AuthError User
  user_of_cookie now users secret admin_can_see_all none = err unauthenticated
  user_of_cookie now users secret admin_can_see_all (some []) = err unauthenticated
  user_of_cookie now users secret admin_can_see_all (some (c ∷ token)) =
      user_of_token users admin_can_see_all (decode_token now (c ∷ token) secret)

  -- `get_current_user`: `cookie` is the session cookie of the request, if it has one.
  unfoldable pub get_current_user :
      ℕ → Bool → List User → Text → Bool → Option Text → Result AuthError User
  get_current_user now is_ready users secret admin_can_see_all cookie =
      if is_ready then user_of_cookie now users secret admin_can_see_all cookie else err unavailable

  unfoldable pub require_admin : User → Result AuthError User
  require_admin user = if user.is_admin then ok user else err forbidden
