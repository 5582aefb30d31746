-- ===== src/Tests/Encodings.antt =====
-- An `iconv` for ASCII, and the conversions over it.
use fuse3_p7zip.Base.{
  ℕ, ◌/◌, ◌%◌, ◌<◌, ◌≢◌, ◌≡◌, refl, ap, Bytes, codes, All, [], ◌∷◌, arith, nat_eq, list_eq, ◌==◌,
  if◌then◌else◌, beq_ne,
}
use fuse3_p7zip.Base.Outcome.{ok}
use fuse3_p7zip.Host.{Host, done}
use fuse3_p7zip.Text.Encoding.{Wide, wide_bytes, utf8, wide_str}
use fuse3_p7zip.Text.Encoding.RoundTrip.{Converts, encode_all, utf8-wide_str}
use fuse3_p7zip.Tests.{host}

abbrev narrowed : Bytes → Bytes
narrowed [] = []
narrowed (b ∷ s) = let rest = narrowed s in if b == 0 then rest else b ∷ rest

abbrev widened : Bytes → Bytes
widened [] = []
widened (b ∷ s) = b ∷ 0 ∷ 0 ∷ 0 ∷ widened s

abbrev ascii_host : Host
ascii_host = record host {
  iconv =
      λ to from input room. done (if to == codes "UTF-8" then narrowed input else widened input);
}

abbrev IsAscii : ℕ → Type 0
IsAscii c = (c ≢ 0) × (c < 128)

abbrev encode : ℕ → Bytes
encode c = c ∷ []

narrowed-wide_bytes : (ws : Wide) → All IsAscii ws → narrowed (wide_bytes ws) ≡ encode_all encode ws
unfolding wide_bytes nat_eq
narrowed-wide_bytes [] a = refl
narrowed-wide_bytes (c ∷ ws) ((ne, lt), a) =
    let low : c % 256 ≡ c = omega arith in
    let second : c / 256 % 256 ≡ 0 = omega arith in
    let third : c / 65536 % 256 ≡ 0 = omega arith in
    let fourth : c / 16777216 % 256 ≡ 0 = omega arith in
    rw (low, second, third, fourth, beq_ne c 0 ne) (ap (◌∷◌ c) (narrowed-wide_bytes ws a))

widened-encode_all : (ws : Wide) → All IsAscii ws → widened (encode_all encode ws) ≡ wide_bytes ws
unfolding wide_bytes
widened-encode_all [] a = refl
widened-encode_all (c ∷ ws) ((ne, lt), a) =
    let low : c % 256 ≡ c = omega arith in
    let second : c / 256 % 256 ≡ 0 = omega arith in
    let third : c / 65536 % 256 ≡ 0 = omega arith in
    let fourth : c / 16777216 % 256 ≡ 0 = omega arith in
    rw (low, second, third, fourth) (ap (λ r. c ∷ 0 ∷ 0 ∷ 0 ∷ r) (widened-encode_all ws a))

ascii_host-Converts : Converts ascii_host IsAscii encode
unfolding nat_eq list_eq
ascii_host-Converts = record {
  is_wide = λ c is. (is.0, let lt = is.1 in omega arith);
  is_short = λ c is. (omega arith, omega arith);
  is_full = λ c is. (is.0, tt);
  opens_utf8 = refl;
  opens_wide = refl;
  to_utf8 = λ ws room a le. ap done (narrowed-wide_bytes ws a);
  to_wide = λ ws room a le. ap done (widened-encode_all ws a);
}

utf8-wide_str_example :
    (utf8 ascii_host (codes "a/b") ≡ ok (codes "a/b"))
    × (wide_str ascii_host (codes "a/b") ≡ ok (codes "a/b"))
utf8-wide_str_example =
    utf8-wide_str ascii_host IsAscii encode ascii_host-Converts (codes "a/b")
      (((λ e. cc), omega arith), (((λ e. cc), omega arith), (((λ e. cc), omega arith), tt)))
