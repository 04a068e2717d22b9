-- ===== src/Tests/Signing.antt =====
-- Tokens with a toy encoding and a toy signature.
use mcpcheck.Prelude.{
  ◌+◌, ◌-◌, ◌≡◌, refl, ap, ap₂, true, [], ◌∷◌, ◌++◌, map, Option, none, some, Text, ◌=ₜ◌, codes, ok,
  arith,
}
use mcpcheck.Tokens.{
  Times, check_times, unix_time, add_leeway, sub_leeway, clock_time, expired, Libraries, Hmac256,
  sign, verify, verify_parts, verify_algorithm, sign_text, check_time_claims, decode_claims,
  jwt_header,
}
use mcpcheck.Tokens.Segments.{IsSegment, split_dots}
use mcpcheck.Tokens.Verification.{
  IsCodec, IsNear, InTime, IsSigned, verify-IsSigned, verify-sign, verify-untimed,
}

abbrev shift : Text → Text
shift x = map (λ c. c + 1000) x

abbrev toy : Option Times → Libraries Text
toy times = record {
  encode = shift;
  decode = λ x. some (map (λ c. c - 1000) x);
  mac = λ key message. key ++ message;
  marshal = λ c. some c;
  unmarshal = λ x. some x;
  algorithm = λ _. some (codes "HS256");
  times = λ _. times;
}

shift_back : (x : Text) → map (λ c. c - 1000) (shift x) ≡ x
shift_back [] = refl
shift_back (c ∷ x) = ap₂ ◌∷◌ (omega arith) (shift_back x)

shift-IsSegment : (x : Text) → IsSegment (shift x)
shift-IsSegment [] = tt
shift-IsSegment (c ∷ x) = (λ e. omega arith, shift-IsSegment x)

toy-IsCodec : (times : Option Times) → IsCodec (toy times)
toy-IsCodec times = record {
  decode-encode = λ x. ap some (shift_back x);
  encode-IsSegment = shift-IsSegment;
  header = refl;
}

abbrev until_100 : Times
until_100 = record { expires_at = 100; not_before = 0 }

abbrev key : Hmac256
key = record { secret = codes "k"; leeway = 5 }

abbrev timed : Libraries Text
timed = toy (some until_100)

abbrev untimed : Libraries Text
untimed = toy none

abbrev claims : Text
claims = codes "{}"

verify-sign_example :
    (token : Text) × (sign timed key claims ≡ some token)
    × (InTime 5 7 until_100 → verify timed key 7 true token ≡ ok (some claims))
    × ((r : Option Text) → verify timed key 7 true token ≡ ok r → InTime 5 7 until_100)
verify-sign_example =
    verify-sign timed (toy-IsCodec (some until_100)) key 7 claims claims until_100 refl refl refl
      (omega arith, omega arith, omega arith)

-- The greatest int64 wraps around to a time before the year 1: a start there has passed, and an end there too.
far_start :
    check_times 0 1700000000000000000 (record { expires_at = 0; not_before = 9223372036854775807 })
    ≡ none
unfolding check_times unix_time sub_leeway clock_time
far_start = refl

far_end :
    check_times 0 1700000000000000000 (record { expires_at = 9223372036854775807; not_before = 0 })
    ≡ some expired
unfolding check_times unix_time add_leeway clock_time
far_end = refl

verify-untimed_example :
    (token : Text) × (sign untimed key claims ≡ some token)
    × (verify untimed key 7 true token ≡ ok (some claims))
verify-untimed_example =
    verify-untimed untimed (toy-IsCodec none) key 7 claims claims refl refl refl

abbrev signed_text : Text
signed_text =
    (shift jwt_header ++ (codes "." ++ shift claims))
    ++ (codes "." ++ shift (codes "k" ++ (shift jwt_header ++ (codes "." ++ shift claims))))

accepted : verify untimed key 7 true signed_text ≡ ok (some claims)
unfolding verify split_dots verify_parts verify_algorithm sign_text check_time_claims ◌=ₜ◌
accepted = refl

verify_signed_example :
    (body : Text) × IsSigned untimed key signed_text body
    × ((t : Times) → ◌≡◌ {A = Option Times} none (some t) → IsNear 5 t → InTime 5 7 t)
    × (decode_claims untimed true body ≡ ok (some claims))
verify_signed_example = verify-IsSigned untimed key 7 true signed_text (some claims) accepted
