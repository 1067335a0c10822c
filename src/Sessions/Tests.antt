-- ===== src/Sessions/Tests.antt =====
-- Tokens of small users.
use vision_bill.Prelude.Int.{ℤ}
use vision_bill.Sessions.{split_dots, message_of, is_past, create_token, decode_token}
use vision_bill.Sessions.Samples.{unary, ones, parse_int}
use vision_bill.Sessions.Tokens.{decode-create_token, decode_token-signed}
use vision_bill.Prelude.Result.{ok}
use vision_bill.Prelude.{
  ℕ, ◌+◌, ◌≡◌, refl, false, [], ◌∷◌, Option, some, codes, Text, text_eq, length,
}

decode-create_token_example :
    decode_token unary 2_500_000 (create_token unary 2_000_000 3 1 (codes "key")) (codes "key")
    ≡ ok (some 3)
decode-create_token_example = decode-create_token unary 2_000_000 2_500_000 3 1 (codes "key")

-- User 1 until second 2.
abbrev token : Text
token = codes "1.+11.11111111"

decode_token-signed_example :
    (user_part exp_part : Text) × (exp : ℤ) × (split_dots token
      ≡ user_part ∷ exp_part ∷ ones (length (codes "key") + length (message_of unary 1 exp)) ∷ [])
    × (◌≡◌ {A = Option ℕ} (some (length user_part)) (some 1))
    × (parse_int exp_part ≡ some exp)
    × (is_past 1_000_000 exp ≡ false)
unfolding decode_token split_dots text_eq
decode_token-signed_example = decode_token-signed unary 1_000_000 token (codes "key") refl
