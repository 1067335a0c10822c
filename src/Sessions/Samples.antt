-- ===== src/Sessions/Samples.antt =====
-- A codec for the tests of sessions and accounts: unary numerals, and a signature that depends on
-- the length of what is signed.
use vision_bill.Prelude.Int.{ℤ, pos, negsuc}
use vision_bill.Sessions.{has_no_dot, is_ascii, Codec}
use vision_bill.Prelude.{
  ℕ, zero, suc, ◌+◌, ◌≡◌, refl, ap, true, [], ◌∷◌, Option, none, some, Text, if◌then◌else◌, ◌==◌,
  length,
}

-- `n` ones.
abbrev pub ones : ℕ → Text
ones zero = []
ones (suc n) = b'1' ∷ ones n

pub ones-plain : (n : ℕ) → has_no_dot (ones n) ≡ true
ones-plain zero = refl
ones-plain (suc n) = ones-plain n

pub ones-IsAscii : (n : ℕ) → is_ascii (ones n) ≡ true
ones-IsAscii zero = refl
ones-IsAscii (suc n) = ones-IsAscii n

pub length-ones : (n : ℕ) → length (ones n) ≡ n
length-ones zero = refl
length-ones (suc n) = ap suc (length-ones n)

abbrev pub show_int : ℤ → Text
show_int (pos n) = b'+' ∷ ones n
show_int (negsuc n) = b'-' ∷ ones n

abbrev pub parse_int : Text → Option ℤ
parse_int [] = none
parse_int (c ∷ s) = if c == b'+' then some (pos (length s)) else some (negsuc (length s))

pub parse-show_int : (z : ℤ) → parse_int (show_int z) ≡ some z
parse-show_int (pos n) = ap (λ k. some (pos k)) (length-ones n)
parse-show_int (negsuc n) = ap (λ k. some (negsuc k)) (length-ones n)

pub show_int-plain : (z : ℤ) → has_no_dot (show_int z) ≡ true
show_int-plain (pos n) = ones-plain n
show_int-plain (negsuc n) = ones-plain n

abbrev pub unary : Codec
unary = record {
  show_id = ones;
  parse_id = λ s. some (length s);
  show_int = show_int;
  parse_int = parse_int;
  sign = λ secret message. ones (length secret + length message);
  parse-show_id = λ u. ap some (length-ones u);
  parse-show_int = parse-show_int;
  show_id-plain = ones-plain;
  show_int-plain = show_int-plain;
  sign-IsAscii = λ secret message. ones-IsAscii (length secret + length message);
  sign-plain = λ secret message. ones-plain (length secret + length message);
}
