-- ===== src/Sessions/Tokens.antt =====
-- A token is accepted exactly as long as it lives, and only with the server's signature.
use vision_bill.Prelude.Int.{ℤ, pos}
use vision_bill.Prelude.Result.{Result, ok, err}
use vision_bill.Sessions.{
  is_ascii, TypeError, type_error, dot, has_no_dot, Codec, first_part, split_dots, is_past,
  message_of, create_token, checked, decode_parts, decode_token,
}
use vision_bill.Prelude.{
  ℕ, ◌+◌, ◌*◌, ◌/◌, ◌≡◌, refl, ap, ◌∙◌, Bool, true, false, ◌&&◌, List, [], ◌∷◌, ◌++◌, Option, none,
  some, inl, inr, arith, ltb, ◌==◌, if◌then◌else◌, Text, text_eq, text_eq→eq, text_eq_refl,
  Bool-cases,
}

else_taken : {A : Type 0} (x y : A) (b : Bool) → b ≡ false → (if b then x else y) ≡ y
else_taken x y true e = absurd (cc)
else_taken x y false e = refl

-- A part without a dot is split off in front of a dot, and is whole at the end.
first_part-append :
    (p s : Text)
    → has_no_dot p ≡ true
    → first_part (p ++ dot ∷ s) ≡ (p, (first_part s).0 ∷ (first_part s).1)
first_part-append [] s h = refl
first_part-append (c ∷ p) s h =
    rw (first_part-append p s (ground arith)) (else_taken _ _ (c == dot) (ground arith))

first_part-whole : (p : Text) → has_no_dot p ≡ true → first_part p ≡ (p, [])
first_part-whole [] h = refl
first_part-whole (c ∷ p) h =
    rw (first_part-whole p (ground arith)) (else_taken _ _ (c == dot) (ground arith))

append_assoc : (a b c : Text) → (a ++ b) ++ c ≡ a ++ (b ++ c)
append_assoc [] b c = refl
append_assoc (x ∷ a) b c = ap (λ s. x ∷ s) (append_assoc a b c)

module _ (codec : Codec) where
  split-create_token :
      (u : ℕ) (z : ℤ) (sig : Text)
      → has_no_dot sig ≡ true
      → split_dots (message_of codec u z ++ dot ∷ sig)
        ≡ codec.show_id u ∷ codec.show_int z ∷ sig ∷ []
  unfolding split_dots
  split-create_token u z sig h =
      rw (append_assoc (codec.show_id u) (dot ∷ codec.show_int z) (dot ∷ sig)) (
        rw
          (first_part-append (codec.show_id u) (codec.show_int z ++ dot ∷ sig)
            (codec.show_id-plain u))
          (rw
            (
              first_part-append (codec.show_int z) sig (codec.show_int-plain z),
              first_part-whole sig h,
            )
            refl))

  -- A token that the server made names its user until its age is over, and no one after that.
  pub decode-create_token :
      (now later user_id max_age : ℕ) (secret : Text)
      → decode_token codec later (create_token codec now user_id max_age secret) secret
        ≡ ok (if ltb ((now / 1_000_000 + max_age) * 1_000_000) later then none else some user_id)
  unfolding decode_token create_token
  decode-create_token now later user_id max_age secret =
      rw
        (split-create_token user_id (pos (now / 1_000_000 + max_age)) _ (codec.sign-plain secret _))
        (rw
          (
            codec.parse-show_id user_id,
            codec.parse-show_int (pos (now / 1_000_000 + max_age)),
            codec.sign-IsAscii secret (message_of codec user_id (pos (now / 1_000_000 + max_age))),
            text_eq_refl
                (codec.sign secret (message_of codec user_id (pos (now / 1_000_000 + max_age)))),
          )
          refl)

  -- Whatever the token, it names a user only if its last part is the server's signature of this
  -- user and of a time that is not over.
  pub decode_token-signed :
      (now : ℕ) (token secret : Text) {u : ℕ}
      → decode_token codec now token secret ≡ ok (some u)
      → (user_part exp_part : Text) × (exp : ℤ) × (split_dots token
          ≡ user_part ∷ exp_part ∷ codec.sign secret (message_of codec u exp) ∷ [])
        × (codec.parse_id user_part ≡ some u)
        × (codec.parse_int exp_part ≡ some exp)
        × (is_past now exp ≡ false)
  unfolding decode_token
  decode_token-signed now token secret {u} h = of_parts (split_dots token) refl h
    where
      Signed : List Text → Type 0
      Signed ps =
          (user_part exp_part : Text) × (exp : ℤ) × (ps
            ≡ user_part ∷ exp_part ∷ codec.sign secret (message_of codec u exp) ∷ [])
          × (codec.parse_id user_part ≡ some u)
          × (codec.parse_int exp_part ≡ some exp)
          × (is_past now exp ≡ false)

      of_values :
          (a b sig : Text) (user : Option ℕ) (exp : Option ℤ)
          → codec.parse_id a ≡ user
          → codec.parse_int b ≡ exp
          → checked codec now secret sig user exp ≡ ok (some u)
          → Signed (a ∷ b ∷ sig ∷ [])
      of_values a b sig none exp e f k = absurd (cc)
      of_values a b sig (some v) none e f k = absurd (cc)
      of_values a b sig (some v) (some z) e f k =
          let sign = codec.sign secret (message_of codec v z) in
          elim (Bool-cases (is_ascii sig && is_ascii sign)) [
            | inl p ↦ elim (Bool-cases (text_eq sig sign)) [
              | inl t ↦ elim (Bool-cases (is_past now z)) [
                | inl q ↦ absurd (never (rw (p, t, q) at k))
                | inr q ↦
                    let same = found v (rw (p, t, q) at k) in
                    (
                      a,
                      b,
                      z,
                      ap (λ x. a ∷ b ∷ x ∷ [])
                          (text_eq→eq sig sign t
                            ∙ ap (λ w. codec.sign secret (message_of codec w z)) same),
                      e ∙ ap some same,
                      f,
                      q,
                    )
              ]
              | inr t ↦ absurd (never (rw (p, t) at k))
            ]
            | inr p ↦ absurd (failed (rw p at k))
          ]
        where
          never : ◌≡◌ {A = Result TypeError (Option ℕ)} (ok none) (ok (some u)) → ⊥
          never x = cc

          failed : ◌≡◌ {A = Result TypeError (Option ℕ)} (err type_error) (ok (some u)) → ⊥
          failed x = cc

          found :
              (v : ℕ) → ◌≡◌ {A = Result TypeError (Option ℕ)} (ok (some v)) (ok (some u)) → v ≡ u
          found v x = cc

      of_parts :
          (ps : List Text)
          → split_dots token ≡ ps
          → decode_parts codec now secret ps ≡ ok (some u)
          → Signed ps
      of_parts [] e k = absurd (cc)
      of_parts (a ∷ []) e k = absurd (cc)
      of_parts (a ∷ b ∷ []) e k = absurd (cc)
      of_parts (a ∷ b ∷ sig ∷ []) e k =
          of_values a b sig (codec.parse_id a) (codec.parse_int b) refl refl k
      of_parts (a ∷ b ∷ sig ∷ d ∷ ds) e k = absurd (cc)
