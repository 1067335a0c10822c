-- ===== src/Accounts/Tests.antt =====
-- Tests and witnesses of accounts (src/vision_bill/api/auth.py).
use vision_bill.Accounts.{
  is_valid_body, Account, Hasher, AuthSettings, Credentials, register, login, create_user,
  get_user_by_username, peppered, session_cookie,
}
use vision_bill.Accounts.Login.{users_of, login-register}
use vision_bill.Sessions.{User, unauthenticated, get_current_user}
use vision_bill.Sessions.Samples.{unary}
use vision_bill.Prelude.Result.{ok, err}
use vision_bill.Prelude.{
  ℕ, ◌+◌, ◌*◌, ◌/◌, ◌≡◌, refl, true, false, [], ◌++◌, none, some, Text, codes, text_eq, ltb,
  if◌then◌else◌,
}

-- Plain texts in place of hashes.
abbrev plain : Hasher
plain = record {
  hash = λ salt p. p;
  verify = λ h q. some (text_eq h q);
  digest = λ pepper p. pepper ++ p;
}

abbrev open_auth : AuthSettings
open_auth = record {
  secret_key = codes "key";
  session_max_age_seconds = 60;
  bootstrap_username = none;
  bootstrap_password = none;
  allow_registration = true;
  admin_can_see_all = false;
  pepper = none;
}

abbrev ann : Credentials
ann = record { username = codes "ann"; password = codes "secret" }

abbrev ann_user : User
ann_user = record { id = 4; username = codes "ann"; is_admin = false; can_see_all = false }

abbrev ann_alone : Account
ann_alone = record {
  id = 4;
  username = codes "ann";
  hashed_password = codes "keysecret";
  is_admin = false;
}

login-register_example :
    ((later : ℕ) (password : Text)
      → is_valid_body (record ann { password = password }) ≡ true
      → login plain open_auth unary true later
          (record ann { password = password })
          (register plain open_auth unary true 5_000_000 4 1 ann []).1
        ≡ (if text_eq
              (peppered plain open_auth (codes "secret"))
              (peppered plain open_auth password)
            then ok (ann_user, session_cookie plain open_auth unary later 4)
            else err 401))
    × ((later : ℕ)
        → get_current_user unary later true
            (users_of (register plain open_auth unary true 5_000_000 4 1 ann []).1)
            (codes "key")
            false
            (some (session_cookie plain open_auth unary 5_000_000 4))
          ≡ (if ltb ((5_000_000 / 1_000_000 + 60) * 1_000_000) later
              then err unauthenticated
              else ok ann_user))
unfolding register create_user get_user_by_username
login-register_example =
    login-register plain open_auth unary true 5_000_000 4 1 ann [] (λ salt p q. refl) refl refl
