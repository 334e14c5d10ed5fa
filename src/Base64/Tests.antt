-- ===== src/Base64/Tests.antt =====
-- Runs of the Base64 code, after tests/tests-base64.cpp.
use snowcone.Prelude.{◌≡◌, refl, none, true, codes, are_bytes-IsByte}
use snowcone.Base64.{encode, decode, l_from_base64}
use snowcone.Base64.Groups.{join_groups, sextets}
use snowcone.Base64.Decode.{decode-join_groups}
use snowcone.Base64.RoundTrip.{decode-encode}

t1 : encode (codes "foobar") ≡ codes "Zm9vYmFy"
unfolding encode
t1 = refl

t2 : decode (codes "Zm9vYg==") ≡ (codes "foob", true)
unfolding decode
t2 = refl

t3 : l_from_base64 (codes "Zm9vY") ≡ none
unfolding l_from_base64
t3 = refl

decode-encode_example : decode (encode (codes "foobar!")) ≡ (codes "foobar!", true)
decode-encode_example = decode-encode (codes "foobar!") (are_bytes-IsByte (codes "foobar!") refl)

decode-join_groups_example : decode (codes "Zm9v Yg==") ≡ join_groups (sextets (codes "Zm9v Yg=="))
decode-join_groups_example = decode-join_groups (codes "Zm9v Yg==")
