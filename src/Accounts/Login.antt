-- ===== src/Accounts/Login.antt =====
-- From registration to login to the current user (src/vision_bill/api/auth.py,
-- src/vision_bill/security/password.py and src/vision_bill/security/dependencies.py).
use vision_bill.Accounts.{
  Account, Accounts, Hasher, AuthSettings, verified, user_from_record, has_username,
  get_user_by_username, create_user, new_account, Credentials, is_valid_body, peppered,
  hash_password, verify_password, verify_credentials, session_cookie, register, logged_in, login,
}
use vision_bill.Sessions.{
  Codec, User, unauthenticated, create_token, decode_token, get_current_user, dot, user_of_cookie,
  user_of_token,
}
use vision_bill.Sessions.Tokens.{decode-create_token}
use vision_bill.Prelude.{
  ℕ, ◌+◌, ◌*◌, ◌/◌, ◌≡◌, ◌≢◌, ltb, refl, sym, ap, ◌∙◌, Bool, true, false, List, [], ◌∷◌, ◌++◌, map,
  Option, none, some, ◌==◌, if◌then◌else◌, Text, text_eq, text_eq_refl, find?, arith, Bool-cases,
  is_some, ==_iff, inl, inr,
}
use vision_bill.Prelude.Result.{Result, ok, err, ok-injective, err-ne-ok}

-- The hash of a text verifies against that text only: what Argon2 promises.
abbrev pub IsHash : Hasher → Type 0
IsHash hasher =
    (salt : ℕ) (p q : Text) → verified (hasher.verify (hasher.hash salt p) q) ≡ text_eq p q

abbrev pub users_of : Accounts → List User
users_of = map user_from_record

module _ (hasher : Hasher) (auth : AuthSettings) (codec : Codec) where
  abbrev account : ℕ → ℕ → Credentials → Account
  account id salt body =
      new_account id body.username (hash_password hasher auth salt body.password) false

  -- What a successful registration has found and written.
  record IsRegistered (now id salt : ℕ) (body : Credentials) (t : Accounts)
      (r : Result ℕ (User × Text) × Accounts) (out : User × Text) : Type 0 where
    free : get_user_by_username body.username t ≡ none
    valid : is_valid_body body ≡ true
    answer :
        out ≡ (user_from_record (account id salt body), session_cookie hasher auth codec now id)
    table : r.1 ≡ t ++ account id salt body ∷ []

  some-not : {A : Type 0} (o : Option A) → is_some o ≡ false → o ≡ none
  some-not none h = refl
  some-not (some a) h = absurd (cc)

  register-ok :
      (is_ready : Bool) (now id salt : ℕ) (body : Credentials) (t : Accounts) {out : User × Text}
      → (register hasher auth codec is_ready now id salt body t).0 ≡ ok out
      → IsRegistered now id salt body t (register hasher auth codec is_ready now id salt body t) out
  unfolding register create_user
  register-ok is_ready now id salt body t h = elim (Bool-cases (is_valid_body body)) [
    | inr e ↦ absurd (err-ne-ok (rw (register, e) at h))
    | inl valid ↦ elim (Bool-cases is_ready) [
      | inr e ↦ absurd (err-ne-ok (rw (register, valid, e) at h))
      | inl ready ↦ elim (Bool-cases auth.allow_registration) [
        | inr e ↦ absurd (err-ne-ok (rw (register, valid, ready, e) at h))
        | inl allowed ↦ elim (Bool-cases (is_some (get_user_by_username body.username t))) [
          | inl e ↦ absurd (err-ne-ok (rw (register, valid, ready, allowed, e) at h))
          | inr e ↦ record {
            free = some-not (get_user_by_username body.username t) e;
            valid = valid;
            answer = sym (ok-injective (rw (register, create_user, valid, ready, allowed, e) at h));
            table = rw (register, create_user, valid, ready, allowed, e) refl;
          }
        ]
      ]
    ]
  ]

  find?-appended :
      (p : Account → Bool) (t : Accounts) (a : Account)
      → find? p t ≡ none
      → p a ≡ true
      → find? p (t ++ a ∷ []) ≡ some a
  find?-appended p [] a h pa = ground arith
  find?-appended p (b ∷ t) a h pa = ground (arith, find?-appended p t a)

  find?-users_of :
      (id : ℕ) (t : Accounts) {a : Account}
      → find? (λ (x : Account). x.id == id) t ≡ some a
      → find? (λ (u : User). u.id == id) (users_of t) ≡ some (user_from_record a)
  find?-users_of id [] h = absurd (cc)
  find?-users_of id (b ∷ t) h = elim (Bool-cases (b.id == id)) [
    | inl e ↦ rw e (ap (λ (o : Option Account). of o) (rw e at h))
    | inr e ↦ rw e (find?-users_of id t (rw e at h))
  ]
    where
      of : Option Account → Option User
      of none = none
      of (some a) = some (user_from_record a)

  -- A cookie is never empty.
  cookie-user :
      (now : ℕ) (users : List User) (secret : Text) (flag : Bool) (token : Text)
      → token ≢ []
      → user_of_cookie codec now users secret flag (some token)
        ≡ user_of_token codec users flag (decode_token codec now token secret)
  cookie-user now users secret flag [] h = absurd (h refl)
  cookie-user now users secret flag (c ∷ token) h = refl

  create_token-ne :
      (now user max_age : ℕ) (secret : Text) → create_token codec now user max_age secret ≢ []
  unfolding create_token
  create_token-ne now user max_age secret h = absurd (dotted (codec.show_id user) _ _ h)
    where
      dotted : (a b c : Text) → (a ++ dot ∷ b) ++ c ≢ []
      dotted [] b c q = cc
      dotted (x ∷ a) b c q = cc

  module _ (id salt : ℕ) (body : Credentials) (u : Accounts) where
    login-account :
        (later : ℕ) (password : Text)
        → IsHash hasher
        → is_valid_body (record body { password = password }) ≡ true
        → get_user_by_username body.username u ≡ some (account id salt body)
        → login hasher auth codec true later (record body { password = password }) u ≡ (
            if text_eq (peppered hasher auth body.password) (peppered hasher auth password)
            then ok
                (user_from_record (account id salt body), session_cookie hasher auth codec later id)
            else err 401)
    unfolding login verify_credentials verify_password hash_password
    login-account later password hash valid found =
        rw
          (
            login,
            verify_credentials,
            valid,
            found,
            hash salt (peppered hasher auth body.password) (peppered hasher auth password),
          )
          (answer (text_eq (peppered hasher auth body.password) (peppered hasher auth password)))
      where
        answer :
            (b : Bool)
            → logged_in hasher auth codec later
                (if b then some (user_from_record (account id salt body)) else none)
              ≡ (if b
                  then ok (
                    user_from_record (account id salt body),
                    session_cookie hasher auth codec later id,
                  )
                  else err 401)
        answer true = refl
        answer false = refl

    current-account :
        (now later : ℕ)
        → find? (λ (x : Account). x.id == id) u ≡ some (account id salt body)
        → get_current_user codec later true
            (users_of u)
            auth.secret_key
            auth.admin_can_see_all
            (some (session_cookie hasher auth codec now id))
          ≡ (if ltb ((now / 1_000_000 + auth.session_max_age_seconds) * 1_000_000) later
              then err unauthenticated
              else ok (user_from_record (account id salt body)))
    unfolding get_current_user
    current-account now later found =
        cookie-user later (users_of u) auth.secret_key auth.admin_can_see_all
          (session_cookie hasher auth codec now id)
          (create_token-ne now id auth.session_max_age_seconds auth.secret_key)
        ∙ rw (decode-create_token codec now later id auth.session_max_age_seconds auth.secret_key)
            (expiry (ltb ((now / 1_000_000 + auth.session_max_age_seconds) * 1_000_000) later))
      where
        expiry :
            (b : Bool)
            → user_of_token codec
                (users_of u)
                auth.admin_can_see_all
                (ok (if b then none else some id))
              ≡ (if b then err unauthenticated else ok (user_from_record (account id salt body)))
        expiry true = refl
        expiry false = rw (find?-users_of id u found) refl

  -- After a registration, a login with the same name succeeds exactly with a password of the same
  -- digest, and answers the new user with a new cookie; and the cookie of the registration names
  -- the user to every later request until its age is over, and is refused from then on. The new
  -- account's id is unused, and Argon2 verifies a hash against the hashed text only.
  pub login-register :
      (is_ready : Bool) (now id salt : ℕ) (body : Credentials) (t : Accounts) {out : User × Text}
      → IsHash hasher
      → find? (λ (x : Account). x.id == id) t ≡ none
      → (register hasher auth codec is_ready now id salt body t).0 ≡ ok out
      → let after = (register hasher auth codec is_ready now id salt body t).1 in
        ((later : ℕ) (password : Text)
          → is_valid_body (record body { password = password }) ≡ true
          → login hasher auth codec true later (record body { password = password }) after ≡ (
              if text_eq (peppered hasher auth body.password) (peppered hasher auth password)
              then ok (out.0, session_cookie hasher auth codec later id)
              else err 401))
        × ((later : ℕ)
            → get_current_user codec later true
                (users_of after)
                auth.secret_key
                auth.admin_can_see_all
                (some out.1)
              ≡ (if ltb ((now / 1_000_000 + auth.session_max_age_seconds) * 1_000_000) later
                  then err unauthenticated
                  else ok out.0))
  unfolding get_user_by_username
  login-register is_ready now id salt body t hash unused h =
      let r = register-ok is_ready now id salt body t h in
      let user_of_out = ap (λ (o : User × Text). o.0) r.answer in
      (
        λ later password valid. rw r.table (
            login-account id salt body (t ++ account id salt body ∷ []) later password hash valid (
              find?-appended (has_username body.username) t (account id salt body) r.free
                (text_eq_refl body.username))
            ∙ ap
                (λ user.
                  if text_eq (peppered hasher auth body.password) (peppered hasher auth password)
                  then ok (user, session_cookie hasher auth codec later id)
                  else err 401)
                (sym user_of_out)),
        λ later. rw r.table (
            ap
              (λ cookie.
                get_current_user codec later true (users_of (t ++ account id salt body ∷ []))
                  auth.secret_key auth.admin_can_see_all (some cookie))
              (ap (λ (o : User × Text). o.1) r.answer)
            ∙ current-account id salt body (t ++ account id salt body ∷ []) now later (
                find?-appended (λ (x : Account). x.id == id) t (account id salt body) unused
                  ((==_iff id id).1 refl))
            ∙ ap
                (λ user.
                  if ltb ((now / 1_000_000 + auth.session_max_age_seconds) * 1_000_000) later
                  then err unauthenticated
                  else ok user)
                (sym user_of_out)),
      )
