-- ===== src/Tokens/Verification.antt =====
-- What `Verify` accepts: the tokens of `Sign` in their time, and nothing that is not signed.
use mcpcheck.Prelude.{
  ℕ, ◌+◌, ◌*◌, ◌≤◌, ◌<◌, ltb, not, ◌&&◌, if◌then◌else◌, ◌≡◌, ◌⊎◌, refl, sym, ap, subst, ◌∙◌, inl,
  inr, Bool, true, List, [], ◌∷◌, ◌++◌, Option, none, some, Text, ◌=ₜ◌, text_eq_iff, text_eq_refl,
  codes, append_assoc, ◌==◌, Result, ok, bind_result, Bool-cases, arith,
}
use mcpcheck.Tokens.{
  Times, Libraries, Part, Error, expired, not_yet_valid, unix_epoch, unix_time, add_leeway,
  sub_leeway, clock_time, Hmac256, jwt_header, dot, second, check_times, check_read_times,
  or_malformed, unless, sign_text, signing_input, sign_payload, sign_marshalled, sign,
  check_algorithm, verify_algorithm, check_time_claims, decode_claims, check_signature,
  verify_parts, verify_split, verify, payload_json,
}
use mcpcheck.Tokens.Segments.{IsSegment, split_dots, split_dots_three, join_dots, join-split_dots}

-- What `Sign` and `Verify` rely on of base64 and of the JSON of the constant header.
pub record IsCodec {C : Type 0} (l : Libraries C) : Type 0 where
  pub decode-encode : (x : Text) → l.decode (l.encode x) ≡ some x
  pub encode-IsSegment : (x : Text) → IsSegment (l.encode x)
  pub header : l.algorithm jwt_header ≡ some (codes "HS256")

-- Not past the end and not before the start, each by the leeway.
abbrev pub InTime : ℕ → ℕ → Times → Type 0
InTime leeway now t =
    ((t.expires_at ≡ 0) ⊎ (now ≤ t.expires_at * second + leeway))
    × ((t.not_before ≡ 0) ⊎ (t.not_before * second ≤ now + leeway))

-- The leeway is a duration, and each claim is more than 322 years before the last second of a `time.Time`.
abbrev pub IsNear : ℕ → Times → Type 0
IsNear leeway t =
    (leeway < 9223372036854775808)
    × (t.expires_at < 9223371964534000000)
    × (t.not_before < 9223371964534000000)

-- Far from the limits the library's times are those of the integers.
unix_time_lem : (n : ℕ) → n < 9223371964534000000 → unix_time n ≡ (unix_epoch + n) * second
unfolding unix_time
unix_time_lem n h = omega arith

late_lem :
    (leeway now n : ℕ)
    → leeway < 9223372036854775808
    → n < 9223371964534000000
    → ltb (add_leeway (unix_time n) leeway) (clock_time now) ≡ ltb (n * second + leeway) now
unfolding add_leeway clock_time
late_lem leeway now n l h = ground (arith, unix_time_lem n h)

early_lem :
    (leeway now n : ℕ)
    → leeway < 9223372036854775808
    → n < 9223371964534000000
    → ltb (clock_time now) (sub_leeway (unix_time n) leeway) ≡ ltb (now + leeway) (n * second)
unfolding sub_leeway clock_time
early_lem leeway now n l h = ground (arith, unix_time_lem n h)

check_times-near :
    (leeway now : ℕ) (t : Times)
    → IsNear leeway t
    → check_times leeway now t ≡ (
        if not (t.expires_at == 0) && ltb (t.expires_at * second + leeway) now
        then some expired
        else if not (t.not_before == 0) && ltb (now + leeway) (t.not_before * second)
        then some not_yet_valid
        else none)
unfolding check_times
check_times-near leeway now t (l, e, n) =
    rw (late_lem leeway now t.expires_at l e, early_lem leeway now t.not_before l n) refl

check_times-InTime :
    (leeway now : ℕ) (t : Times)
    → IsNear leeway t
    → check_times leeway now t ≡ none
    → InTime leeway now t
check_times-InTime leeway now t near h =
    let q = sym (check_times-near leeway now t near) ∙ h in
    (
      elim (Bool-cases (t.expires_at == 0)) [
        | inl a ↦ inl (ground (arith, a))
        | inr a ↦ inr (ground (arith, a, q))
      ],
      elim (Bool-cases (t.not_before == 0)) [
        | inl a ↦ inl (ground (arith, a))
        | inr a ↦ inr (ground (arith, a, q))
      ],
    )

InTime-check_times :
    (leeway now : ℕ) (t : Times)
    → IsNear leeway t
    → InTime leeway now t
    → check_times leeway now t ≡ none
InTime-check_times leeway now t near h = check_times-near leeway now t near ∙ ground arith

unless-ok :
    {A : Type 0} (o : Option Error) (r : Result Error A) (a : A)
    → unless o r ≡ ok a
    → (o ≡ none) × (r ≡ ok a)
unless-ok none r a h = (refl, h)
unless-ok (some e) r a h = absurd (cc)

malformed-ok :
    {A B : Type 0} (part : Part) (o : Option A) (f : A → Result Error B) (b : B)
    → bind_result (or_malformed part o) f ≡ ok b
    → (a : A) × (o ≡ some a) × (f a ≡ ok b)
malformed-ok part none f b h = absurd (cc)
malformed-ok part (some a) f b h = (a, refl, h)

module _ {C : Type 0} (l : Libraries C) where
  -- A token that a key vouches for: three segments, a header with the algorithm, and the key's signature of the
  -- first two. `body` is what the second one decodes to.
  pub record IsSigned (h : Hmac256) (token body : Text) : Type 0 where
    pub header : Text
    pub raw : Text
    pub payload : Text
    pub sig : Text
    pub splits : token ≡ header ++ (b'.' ∷ (payload ++ (b'.' ∷ sig)))
    pub decodes : l.decode header ≡ some raw
    pub uses : l.algorithm raw ≡ some (codes "HS256")
    pub signs : l.decode sig ≡ some (l.mac h.secret (header ++ (b'.' ∷ payload)))
    pub holds : l.decode payload ≡ some body

  check_algorithm-none : (alg : Text) → check_algorithm l alg ≡ none → alg ≡ codes "HS256"
  check_algorithm-none alg h = ground (arith, text_eq_iff alg (codes "HS256"))

  check_signature-none :
      (h : Hmac256) (header payload got : Text)
      → check_signature l h header payload got ≡ none
      → l.mac h.secret (header ++ (b'.' ∷ payload)) ≡ got
  unfolding sign_text
  check_signature-none h header payload got e =
      ground (arith, text_eq_iff (l.mac h.secret (header ++ (b'.' ∷ payload))) got)

  verify_parts-IsSigned :
      (h : Hmac256) (now : ℕ) (wanted : Bool) (header payload sig : Text) (r : Option C)
      → verify_parts l h now wanted header payload sig ≡ ok r
      → (body : Text) × IsSigned h (header ++ (b'.' ∷ (payload ++ (b'.' ∷ sig)))) body
        × (check_time_claims l h now body ≡ none)
        × (decode_claims l wanted body ≡ ok r)
  unfolding verify_parts verify_algorithm
  verify_parts-IsSigned h now wanted header payload sig r e =
      let (raw, d, e1) = malformed-ok _ (l.decode header) _ r e in
      let (alg, a, e2) = malformed-ok _ (l.algorithm raw) _ r e1 in
      let (g, e3) = unless-ok (check_algorithm l alg) _ r e2 in
      let (got, b, e4) = malformed-ok _ (l.decode sig) _ r e3 in
      let (s, e5) = unless-ok (check_signature l h header payload got) _ r e4 in
      let (body, p, e6) = malformed-ok _ (l.decode payload) _ r e5 in
      let (t, e7) = unless-ok (check_time_claims l h now body) _ r e6 in
      (
        body,
        record {
          header = header;
          raw = raw;
          payload = payload;
          sig = sig;
          splits = refl;
          decodes = d;
          uses = a ∙ ap some (check_algorithm-none alg g);
          signs = b ∙ ap some (sym (check_signature-none h header payload got s));
          holds = p;
        },
        t,
        e7,
      )

  verify_split-IsSigned :
      (h : Hmac256) (now : ℕ) (wanted : Bool) (parts : List Text) (r : Option C)
      → verify_split l h now wanted parts ≡ ok r
      → (body : Text) × IsSigned h (join_dots parts) body
        × (check_time_claims l h now body ≡ none)
        × (decode_claims l wanted body ≡ ok r)
  verify_split-IsSigned h now wanted (header ∷ payload ∷ sig ∷ []) r e =
      verify_parts-IsSigned h now wanted header payload sig r e
  verify_split-IsSigned h now wanted [] r e = absurd (cc)
  verify_split-IsSigned h now wanted (_ ∷ []) r e = absurd (cc)
  verify_split-IsSigned h now wanted (_ ∷ _ ∷ []) r e = absurd (cc)
  verify_split-IsSigned h now wanted (_ ∷ _ ∷ _ ∷ _ ∷ _) r e = absurd (cc)

  check_time_claims-InTime :
      (h : Hmac256) (now : ℕ) (body : Text) (t : Times)
      → check_time_claims l h now body ≡ none
      → l.times body ≡ some t
      → IsNear h.leeway t
      → InTime h.leeway now t
  unfolding check_time_claims
  check_time_claims-InTime h now body t e q near =
      check_times-InTime h.leeway now t near (sym (ap (check_read_times h.leeway now) q) ∙ e)

  -- A token that `Verify` accepts has three segments, a header whose algorithm is HS256 and, as its third
  -- segment, the key's signature of the first two. Where the times of its payload can be read and are far
  -- from the last second that Go's times can hold, they hold at the time of the call, by the leeway. What is stored is what the payload decodes to, if anything is wanted.
  pub verify-IsSigned :
      (h : Hmac256) (now : ℕ) (wanted : Bool) (token : Text) (r : Option C)
      → verify l h now wanted token ≡ ok r
      → (body : Text) × IsSigned h token body
        × ((t : Times) → l.times body ≡ some t → IsNear h.leeway t → InTime h.leeway now t)
        × (decode_claims l wanted body ≡ ok r)
  unfolding verify
  verify-IsSigned h now wanted token r e =
      let (body, s, t, d) = verify_split-IsSigned h now wanted (split_dots token) r e in
      (
        body,
        subst (λ z. IsSigned h z body) (join-split_dots token) s,
        λ u q near. check_time_claims-InTime h now body u t q near,
        d,
      )

  verify_signed :
      (h : Hmac256) (now : ℕ) (wanted : Bool) (header raw payload body sig : Text)
      → l.decode header ≡ some raw
      → l.algorithm raw ≡ some (codes "HS256")
      → l.decode sig ≡ some (l.mac h.secret (header ++ (b'.' ∷ payload)))
      → l.decode payload ≡ some body
      → verify_parts l h now wanted header payload sig
        ≡ unless (check_time_claims l h now body) (decode_claims l wanted body)
  unfolding verify_parts verify_algorithm sign_text check_time_claims ◌=ₜ◌
  verify_signed h now wanted header raw payload body sig d a g p =
      rw (d, verify_parts)
        (rw (a, verify_algorithm)
          (rw g (rw (text_eq_refl (l.mac h.secret (header ++ (b'.' ∷ payload)))) (rw p refl))))

  module _ (v : IsCodec l) where
    verify-sign_payload :
        (h : Hmac256) (now : ℕ) (wanted : Bool) (payload : Text)
        → verify l h now wanted (sign_payload l h payload)
          ≡ unless (check_time_claims l h now payload) (decode_claims l wanted payload)
    unfolding verify sign_text
    verify-sign_payload h now wanted payload =
        ap (λ z. verify_split l h now wanted (split_dots z))
          (append_assoc (l.encode jwt_header) (dot ++ l.encode payload) _)
        ∙ ap (verify_split l h now wanted) (
            split_dots_three (l.encode jwt_header) (l.encode payload) _
              (v.encode-IsSegment jwt_header) (v.encode-IsSegment payload)
              (v.encode-IsSegment (sign_text l h (signing_input l payload))))
        ∙ verify_signed h now wanted (l.encode jwt_header) jwt_header (l.encode payload) payload
            (l.encode (sign_text l h (signing_input l payload))) (v.decode-encode jwt_header)
            v.header (v.decode-encode _) (v.decode-encode payload)

    -- What `Sign` returns for claims is accepted by `Verify` with the same key and leeway, in the time that the
    -- claims give by that leeway, and the claims come back; where they can be read back and their times
    -- can be read, and are far from the last second that Go's times can hold. Out of that time it is not accepted.
    pub verify-sign :
        (h : Hmac256) (now : ℕ) (claims : C) (payload : Text) (t : Times)
        → l.marshal claims ≡ some payload
        → l.unmarshal payload ≡ some claims
        → l.times payload ≡ some t
        → IsNear h.leeway t
        → (token : Text) × (sign l h claims ≡ some token)
          × (InTime h.leeway now t → verify l h now true token ≡ ok (some claims))
          × ((r : Option C) → verify l h now true token ≡ ok r → InTime h.leeway now t)
    unfolding sign check_time_claims
    verify-sign h now claims payload t m u q near = (
      sign_payload l h payload,
      ap (sign_marshalled l h) m,
      λ i.
          verify-sign_payload h now true payload
          ∙ ap (λ o. unless (check_read_times h.leeway now o) (decode_claims l true payload)) q
          ∙ ap (λ o. unless o (decode_claims l true payload))
              (InTime-check_times h.leeway now t near i)
          ∙ ap (λ o. bind_result (or_malformed payload_json o) (λ c. ok (some c))) u,
      λ r e.
          check_time_claims-InTime h now payload t
            (unless-ok (check_time_claims l h now payload) (decode_claims l true payload) r
              (sym (verify-sign_payload h now true payload) ∙ e)).0
            q near,
    )

    -- Claims whose times cannot be read into integers, such as an end with a fraction of a second, are accepted
    -- at every time.
    pub verify-untimed :
        (h : Hmac256) (now : ℕ) (claims : C) (payload : Text)
        → l.marshal claims ≡ some payload
        → l.unmarshal payload ≡ some claims
        → l.times payload ≡ none
        → (token : Text) × (sign l h claims ≡ some token)
          × (verify l h now true token ≡ ok (some claims))
    unfolding sign check_time_claims
    verify-untimed h now claims payload m u q = (
      sign_payload l h payload,
      ap (sign_marshalled l h) m,
      verify-sign_payload h now true payload
          ∙ ap (λ o. unless (check_read_times h.leeway now o) (decode_claims l true payload)) q
          ∙ ap (λ o. bind_result (or_malformed payload_json o) (λ c. ok (some c))) u,
    )
