-- ===== src/Accounts.antt =====
-- Accounts: the users table (src/vision_bill/provider/db/user_db.py), the peppered passwords
-- (src/vision_bill/security/password.py), registration and login (src/vision_bill/api/auth.py) and
-- the first administrator (src/vision_bill/main.py). Argon2 and the HMAC are the interface `Hasher`.
pub mod Login
mod Tests
use vision_bill.ReceiptDb.{ReceiptRow}
use vision_bill.Images.{ImageRow, Images}
use vision_bill.Sessions.{Codec, User, create_token}
use vision_bill.Prelude.{
  ℕ, ◌≡◌, Bool, true, false, not, ◌&&◌, List, [], ◌∷◌, ◌++◌, map, Option, none, some, ltb, leb,
  ◌==◌, if◌then◌else◌, Text, text_eq, find?, update_where, is_some, length,
}
use vision_bill.Prelude.Result.{Result, ok, err, ◌>>=◌, ◌>>◌, guard}

-- A row of the table users.
pub record Account : Type 0 where
  pub id : ℕ
  pub username : Text
  pub hashed_password : Text
  pub is_admin : Bool

abbrev pub Accounts : Type 0
Accounts = List Account

-- `hash` of argon2's PasswordHasher with its random salt, `verify` with none where it raises, and
-- the hexadecimal HMAC of a password.
pub record Hasher : Type 0 where
  pub hash : ℕ → Text → Text
  pub verify : Text → Text → Option Bool
  pub digest : Text → Text → Text

pub record AuthSettings : Type 0 where
  pub secret_key : Text
  pub session_max_age_seconds : ℕ
  pub bootstrap_username : Option Text
  pub bootstrap_password : Option Text
  pub allow_registration : Bool
  pub admin_can_see_all : Bool
  pub pepper : Option Text

-- `auth.pepper or auth.secret_key`
abbrev pub effective_pepper : AuthSettings → Text
effective_pepper auth = or_secret auth.pepper
  where
    or_secret : Option Text → Text
    or_secret none = auth.secret_key
    or_secret (some []) = auth.secret_key
    or_secret (some (c ∷ s)) = c ∷ s

abbrev pub verified : Option Bool → Bool
verified none = false
verified (some b) = b

abbrev pub user_from_record : Account → User
user_from_record a = record {
  id = a.id;
  username = a.username;
  is_admin = a.is_admin;
  can_see_all = false;
}

abbrev pub has_username : Text → Account → Bool
has_username username a = text_eq a.username username

unfoldable pub get_user_by_username : Text → Accounts → Option Account
get_user_by_username username = find? (has_username username)

abbrev pub new_account : ℕ → Text → Text → Bool → Account
new_account id username hashed_password is_admin = record {
  id = id;
  username = username;
  hashed_password = hashed_password;
  is_admin = is_admin;
}

-- UNIQUE (username): none is the error of the database.
unfoldable pub create_user : ℕ → Text → Text → Bool → Accounts → Option Account × Accounts
create_user id username hashed_password is_admin t =
    if is_some (get_user_by_username username t)
    then (none, t)
    else let a = new_account id username hashed_password is_admin in (some a, t ++ a ∷ [])

-- The body of a request, with the lengths that pydantic demands.
pub record Credentials : Type 0 where
  pub username : Text
  pub password : Text

abbrev pub is_valid_body : Credentials → Bool
is_valid_body body =
    leb 1 (length body.username)
    && leb (length body.username) 100
    && leb 1 (length body.password)
    && leb (length body.password) 200

module _ (hasher : Hasher) (auth : AuthSettings) where
  abbrev pub peppered : Text → Text
  peppered password = with_pepper (effective_pepper auth)
    where
      with_pepper : Text → Text
      with_pepper [] = password
      with_pepper (c ∷ pepper) = hasher.digest (c ∷ pepper) password

  unfoldable pub hash_password : ℕ → Text → Text
  hash_password salt password = hasher.hash salt (peppered password)

  unfoldable pub verify_password : Text → Text → Bool
  verify_password hashed password = verified (hasher.verify hashed (peppered password))

  unfoldable pub verify_credentials : Text → Text → Accounts → Option User
  verify_credentials username password t = matching (get_user_by_username username t)
    where
      matching : Option Account → Option User
      matching none = none
      matching (some a) =
          if verify_password a.hashed_password password then some (user_from_record a) else none

  -- `bootstrap_admin`: the new administrator, to whom the rows without an owner then belong.
  abbrev pub new_admin : ℕ → ℕ → Option Text → Option Text → Accounts → Option Account × Accounts
  new_admin id salt (some (c ∷ username)) (some (d ∷ password)) t =
      create_user id (c ∷ username) (hash_password salt (d ∷ password)) true t
  new_admin id salt username password t = (none, t)

  unfoldable pub bootstrap_admin : ℕ → ℕ → Accounts → Option Account × Accounts
  bootstrap_admin id salt [] = new_admin id salt auth.bootstrap_username auth.bootstrap_password []
  bootstrap_admin id salt (a ∷ t) = (none, a ∷ t)

  module _ (codec : Codec) where
    -- `_set_session_cookie`
    abbrev pub session_cookie : ℕ → ℕ → Text
    session_cookie now user_id =
        create_token codec now user_id auth.session_max_age_seconds auth.secret_key

    -- An error is a status code; 500 is the UniqueViolationError of a simultaneous registration.
    abbrev pub registered : ℕ → Option Account × Accounts → Result ℕ (User × Text) × Accounts
    registered now (none, t) = (err 500, t)
    registered now (some a, t) = (ok (user_from_record a, session_cookie now a.id), t)

    unfoldable pub register :
        Bool → ℕ → ℕ → ℕ → Credentials → Accounts → Result ℕ (User × Text) × Accounts
    register is_ready now id salt body t =
        if not (is_valid_body body)
        then (err 422, t)
        else if not is_ready
        then (err 503, t)
        else if not auth.allow_registration
        then (err 403, t)
        else if is_some (get_user_by_username body.username t)
        then (err 409, t)
        else registered now
            (create_user id body.username (hash_password salt body.password) false t)

    abbrev pub logged_in : ℕ → Option User → Result ℕ (User × Text)
    logged_in now none = err 401
    logged_in now (some user) = ok (user, session_cookie now user.id)

    unfoldable pub login : Bool → ℕ → Credentials → Accounts → Result ℕ (User × Text)
    login is_ready now body t =
        guard (is_valid_body body) 422
        >> guard is_ready 503
        >> logged_in now (verify_credentials body.username body.password t)

-- `set_owner_of_orphan_rows`
abbrev pub owned : ℕ → Option ℕ → Option ℕ
owned user none = some user
owned user (some owner) = some owner

unfoldable pub set_owner_of_orphan_rows : ℕ → List ReceiptRow × Images → List ReceiptRow × Images
set_owner_of_orphan_rows user (receipts, images) = (
  map (λ (r : ReceiptRow). record r { user_id = owned user r.user_id }) receipts,
  map (λ (i : ImageRow). record i { user_id = owned user i.user_id }) images,
)
