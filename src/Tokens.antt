-- ===== src/Tokens.antt =====
-- internal/tokens/tokens.go. Base64, HMAC and `encoding/json` are the library's and a parameter. Times are
-- not negative: a claim counts seconds, the clock and the leeway nanoseconds.
pub mod Segments
pub mod Verification
use mcpcheck.Prelude.{
  ℕ, ◌+◌, ◌-◌, ◌*◌, ◌%◌, Bool, true, false, not, ◌&&◌, List, [], ◌∷◌, ◌++◌, Option, none, some,
  Text, ◌=ₜ◌, codes, ltb, if◌then◌else◌, ◌==◌, Result, ok, err, bind_result,
}
use mcpcheck.Tokens.Segments.{split_dots}

-- The times of `checkTimeClaims`; 0 is a missing one.
pub record Times : Type 0 where
  pub expires_at : ℕ
  pub not_before : ℕ

-- What the libraries do with texts of bytes, and with the claims `C` of a caller.
pub record Libraries (C : Type 0) : Type 0 where
  pub encode : Text → Text  -- base64.RawURLEncoding
  pub decode : Text → Option Text
  pub mac : Text → Text → Text  -- of a key and a message
  pub marshal : C → Option Text
  pub unmarshal : Text → Option C
  pub algorithm : Text → Option Text  -- the field `alg` of a header
  pub times : Text → Option Times  -- the fields `exp` and `nbf` of a payload

-- The errors; of a malformed token, with the part that is at fault.
pub data Part : Type 0 where
  segments : Part
  header_base64 : Part
  header_json : Part
  signature_base64 : Part
  payload_base64 : Part
  payload_json : Part

pub data Error : Type 0 where
  malformed : Part → Error
  signature : Error
  algorithm_is : Text → Error
  expired : Error
  not_yet_valid : Error

-- `HMAC256`
pub record Hmac256 : Type 0 where
  pub secret : Text
  pub leeway : ℕ

-- `NewHMAC256`; `none` is its panic.
unfoldable pub new_hmac256 : Text → ℕ → Option Hmac256
new_hmac256 secret leeway =
    if secret =ₜ [] then none else some (record { secret = secret; leeway = leeway })

-- `jwtHeader`
abbrev pub jwt_header : Text
jwt_header = codes "{\"alg\":\"HS256\",\"typ\":\"JWT\"}"

abbrev pub dot : Text
dot = codes "."

abbrev pub second : ℕ
second = 1000000000

-- The seconds of a `time.Time` are an int64, counted from the year 1. A time is here the number of nanoseconds
-- since the earliest such second, -2 ^ 63.
abbrev pub seconds_limit : ℕ
seconds_limit = 18446744073709551616

-- The second 0 of Unix: 62135596800 seconds behind the year 1.
abbrev pub unix_epoch : ℕ
unix_epoch = 9223372098990372608

-- `time.Unix(n, 0)`: the sum of the seconds wraps around.
unfoldable pub unix_time : ℕ → ℕ
unix_time n = ((n + unix_epoch) % seconds_limit) * second

-- `t.Add(d)`: the seconds stop at the last one.
unfoldable pub add_leeway : ℕ → ℕ → ℕ
add_leeway t d =
    if ltb (t + d) (seconds_limit * second)
    then t + d
    else (seconds_limit - 1) * second + (t + d) % second

-- `t.Add(-d)`: the seconds stop at the second one.
unfoldable pub sub_leeway : ℕ → ℕ → ℕ
sub_leeway t d = if ltb t d then second + (t + (second - d % second)) % second else t - d

-- The clock's time, from nanoseconds since the second 0 of Unix.
unfoldable pub clock_time : ℕ → ℕ
clock_time now = unix_epoch * second + now

-- The times of claims that were read, at the time `now`.
unfoldable pub check_times : ℕ → ℕ → Times → Option Error
check_times leeway now t =
    if not (t.expires_at == 0) && ltb (add_leeway (unix_time t.expires_at) leeway) (clock_time now)
    then some expired
    else if not (t.not_before == 0)
        && ltb (clock_time now) (sub_leeway (unix_time t.not_before) leeway)
    then some not_yet_valid
    else none

abbrev pub check_read_times : ℕ → ℕ → Option Times → Option Error
check_read_times leeway now none = none
check_read_times leeway now (some t) = check_times leeway now t

-- A step that decodes, with the error where it fails.
abbrev pub or_malformed : {A : Type 0} → Part → Option A → Result Error A
or_malformed part none = err (malformed part)
or_malformed part (some a) = ok a

abbrev pub unless : {A : Type 0} → Option Error → Result Error A → Result Error A
unless none r = r
unless (some e) r = err e

module _ {C : Type 0} (l : Libraries C) where
  -- `sign`
  unfoldable pub sign_text : Hmac256 → Text → Text
  sign_text h input = l.mac h.secret input

  abbrev pub signing_input : Text → Text
  signing_input payload = l.encode jwt_header ++ (dot ++ l.encode payload)

  abbrev pub sign_payload : Hmac256 → Text → Text
  sign_payload h payload =
      signing_input payload ++ (dot ++ l.encode (sign_text h (signing_input payload)))

  abbrev pub sign_marshalled : Hmac256 → Option Text → Option Text
  sign_marshalled h none = none
  sign_marshalled h (some payload) = some (sign_payload h payload)

  -- `Sign`; `none` is its error.
  unfoldable pub sign : Hmac256 → C → Option Text
  sign h claims = sign_marshalled h (l.marshal claims)

  -- `verifyAlgorithm`
  abbrev pub check_algorithm : Text → Option Error
  check_algorithm alg = if alg =ₜ codes "HS256" then none else some (algorithm_is alg)

  unfoldable pub verify_algorithm : {A : Type 0} → Text → Result Error A → Result Error A
  verify_algorithm header rest =
      bind_result (or_malformed header_json (l.algorithm header))
        λ alg. unless (check_algorithm alg) rest

  -- `checkTimeClaims`
  unfoldable pub check_time_claims : Hmac256 → ℕ → Text → Option Error
  check_time_claims h now payload = check_read_times h.leeway now (l.times payload)

  -- The end of `Verify`; `wanted` tells whether `dst` is not nil.
  abbrev pub decode_claims : Bool → Text → Result Error (Option C)
  decode_claims wanted payload =
      if wanted
      then bind_result (or_malformed payload_json (l.unmarshal payload)) (λ c. ok (some c))
      else ok none

  abbrev pub check_signature : Hmac256 → Text → Text → Text → Option Error
  check_signature h header payload got =
      if sign_text h (header ++ (dot ++ payload)) =ₜ got then none else some signature

  -- `Verify` behind the split into three parts.
  unfoldable pub verify_parts : Hmac256 → ℕ → Bool → Text → Text → Text → Result Error (Option C)
  verify_parts h now wanted header payload sig =
      bind_result (or_malformed header_base64 (l.decode header)) λ raw. verify_algorithm raw (
        bind_result (or_malformed signature_base64 (l.decode sig)) λ got.
          unless (check_signature h header payload got) (
            bind_result (or_malformed payload_base64 (l.decode payload))
              λ body. unless (check_time_claims h now body) (decode_claims wanted body)))

  abbrev pub verify_split : Hmac256 → ℕ → Bool → List Text → Result Error (Option C)
  verify_split h now wanted (header ∷ payload ∷ sig ∷ []) =
      verify_parts h now wanted header payload sig
  verify_split h now wanted [] = err (malformed segments)
  verify_split h now wanted (_ ∷ []) = err (malformed segments)
  verify_split h now wanted (_ ∷ _ ∷ []) = err (malformed segments)
  verify_split h now wanted (_ ∷ _ ∷ _ ∷ _ ∷ _) = err (malformed segments)

  -- `Verify`: the claims that are stored into `dst`, if it is not nil.
  unfoldable pub verify : Hmac256 → ℕ → Bool → Text → Result Error (Option C)
  verify h now wanted token = verify_split h now wanted (split_dots token)
