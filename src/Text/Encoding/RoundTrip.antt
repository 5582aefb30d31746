-- ===== src/Text/Encoding/RoundTrip.antt =====
-- That the conversions of src/string.cpp between wide texts and UTF-8 undo each other, over an
-- `iconv` that converts where there is room.
use fuse3_p7zip.Base.{
  ℕ, ◌+◌, ◌*◌, ◌/◌, ◌%◌, ◌^◌, ◌≤◌, ◌<◌, ◌≢◌, ◌≡◌, refl, ap, Bytes, codes, All, List, [], ◌∷◌, ◌++◌,
  length, length-append, arith, beq_ne, nat_eq,
}
use fuse3_p7zip.Base.Outcome.{ok}
use fuse3_p7zip.Host.{Host, done}
use fuse3_p7zip.Exception.{check_errno}
use fuse3_p7zip.Text.Encoding.{Wide, until_nul, wide_bytes, bytes_wide, utf8, wide_str}

abbrev pub encode_all : (ℕ → Bytes) → Wide → Bytes
encode_all encode [] = []
encode_all encode (c ∷ ws) = encode c ++ encode_all encode ws

-- What iconv(3) says of the two conversions, for the characters of an encoding: a character is
-- encoded by one byte to four, of which none is 0, and the text is converted where the output has
-- room for it.
pub record Converts (h : Host) (IsCharacter : ℕ → Type 0) (encode : ℕ → Bytes) : Type 0 where
  pub is_wide : (c : ℕ) → IsCharacter c → (c ≢ 0) × (c < 2 ^ 32)
  pub is_short : (c : ℕ) → IsCharacter c → (1 ≤ length (encode c)) × (length (encode c) ≤ 4)
  pub is_full : (c : ℕ) → IsCharacter c → All (λ b. b ≢ 0) (encode c)
  pub opens_utf8 : h.iconv_open (codes "UTF-8") (codes "UTF-32") ≡ done tt
  pub opens_wide : h.iconv_open (codes "WCHAR_T") (codes "UTF-8") ≡ done tt
  pub to_utf8 :
      (ws : Wide) (room : ℕ)
      → All IsCharacter ws
      → length (encode_all encode ws) ≤ room
      → h.iconv (codes "UTF-8") (codes "UTF-32") (wide_bytes ws) room ≡ done (encode_all encode ws)
  pub to_wide :
      (ws : Wide) (room : ℕ)
      → All IsCharacter ws
      → 4 * length ws ≤ room
      → h.iconv (codes "WCHAR_T") (codes "UTF-8") (encode_all encode ws) room ≡ done (wide_bytes ws)

until_nul_full : (s : List ℕ) → All (λ c. c ≢ 0) s → until_nul s ≡ s
unfolding until_nul
until_nul_full [] a = refl
until_nul_full (c ∷ s) (ne, a) = rw (beq_ne c 0 ne) (ap (◌∷◌ c) (until_nul_full s a))

bytes_wide-wide_bytes : (ws : Wide) → All (λ c. c < 2 ^ 32) ws → bytes_wide (wide_bytes ws) ≡ ws
unfolding bytes_wide wide_bytes
bytes_wide-wide_bytes [] a = refl
bytes_wide-wide_bytes (c ∷ ws) (lt, a) =
    let same : c % 256
          + 256 * (c / 256 % 256)
          + 65536 * (c / 65536 % 256)
          + 16777216 * (c / 16777216 % 256)
        ≡ c =
      omega arith in
    rw same (ap (◌∷◌ c) (bytes_wide-wide_bytes ws a))

length-wide_bytes : (ws : Wide) → length (wide_bytes ws) ≡ 4 * length ws
unfolding wide_bytes
length-wide_bytes [] = refl
length-wide_bytes (c ∷ ws) = omega (arith, length-wide_bytes ws)

All-append : (s t : Bytes) → All (λ b. b ≢ 0) s → All (λ b. b ≢ 0) t → All (λ b. b ≢ 0) (s ++ t)
All-append [] t a b = b
All-append (c ∷ s) t (ne, a) b = (ne, All-append s t a b)

module _ (h : Host) (IsCharacter : ℕ → Type 0) (encode : ℕ → Bytes)
    (converts : Converts h IsCharacter encode) where
  full : (ws : Wide) → All IsCharacter ws → All (λ b. b ≢ 0) (encode_all encode ws)
  full [] a = tt
  full (c ∷ ws) (is, a) =
      All-append (encode c) (encode_all encode ws) (converts.is_full c is) (full ws a)

  not_nul : (ws : Wide) → All IsCharacter ws → All (λ c. c ≢ 0) ws
  not_nul [] a = tt
  not_nul (c ∷ ws) (is, a) = ((converts.is_wide c is).0, not_nul ws a)

  narrow : (ws : Wide) → All IsCharacter ws → All (λ c. c < 2 ^ 32) ws
  narrow [] a = tt
  narrow (c ∷ ws) (is, a) = ((converts.is_wide c is).1, narrow ws a)

  length-encode_all :
      (ws : Wide)
      → All IsCharacter ws
      → (length ws ≤ length (encode_all encode ws))
        × (length (encode_all encode ws) ≤ 4 * length ws)
  length-encode_all [] a = (omega arith, omega arith)
  length-encode_all (c ∷ ws) (is, a) =
      let (some_bytes, few) = converts.is_short c is in
      let (at_least, at_most) = length-encode_all ws a in
      let l = length-append (encode c) (encode_all encode ws) in
      (omega (arith, l), omega (arith, l))

  -- If iconv opens the two conversions, encodes each character, which is not 0 and below 2^32, by
  -- one byte to four of which none is 0, and converts a text of characters where the output has
  -- room for it, then utf8 spells a text of characters in UTF-8, and wide_str gives the text back:
  -- the room that the two ask for is enough.
  pub utf8-wide_str :
      (ws : Wide)
      → All IsCharacter ws
      → (utf8 h ws ≡ ok (encode_all encode ws)) × (wide_str h (encode_all encode ws) ≡ ok ws)
  unfolding utf8 wide_str check_errno
  utf8-wide_str ws a =
      let (at_least, at_most) = length-encode_all ws a in
      let room : length (encode_all encode ws) ≤ length (wide_bytes ws) * 6 =
        omega (arith, length-wide_bytes ws) in
      let room' : 4 * length ws ≤ length (encode_all encode ws) * 4 * 4 = omega arith in
      (
        rw
            (
              converts.opens_utf8,
              until_nul_full ws (not_nul ws a),
              converts.to_utf8 ws (length (wide_bytes ws) * 6) a room,
              until_nul_full (encode_all encode ws) (full ws a),
            )
            refl,
        rw
            (
              converts.opens_wide,
              until_nul_full (encode_all encode ws) (full ws a),
              converts.to_wide ws (length (encode_all encode ws) * 4 * 4) a room',
              bytes_wide-wide_bytes ws (narrow ws a),
              until_nul_full ws (not_nul ws a),
            )
            refl,
      )
