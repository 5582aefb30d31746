-- ===== src/Stdio/Writes.antt =====
-- Writes one after the other, from the end of a file on.
use fuse3_p7zip.Base.{
  ℕ, zero, suc, ◌+◌, ◌-◌, ◌≤◌, Bytes, ◌≡◌, refl, ap, ◌∙◌, sym, List, [], ◌∷◌, ◌++◌, length, take,
  arith, append-nil, append_assoc, length-append,
}
use mathlib.Core.Path.{ap₂}
use fuse3_p7zip.Stdio.{File, fwrite, write_at}
use fuse3_p7zip.Stdio.Laws.{fwrite_at_end, write_at_end}

abbrev pub joined : List Bytes → Bytes
joined [] = []
joined (chunk ∷ chunks) = chunk ++ joined chunks

abbrev pub after_writes : File → List Bytes → File
after_writes f [] = f
after_writes f (chunk ∷ chunks) = after_writes (fwrite chunk f).0 chunks

-- The file with the bytes behind its contents.
abbrev pub behind : File → Bytes → File
behind f bytes = record f { content = f.content ++ bytes; position = length (f.content ++ bytes) }

behind-nil : (f : File) → f.position ≡ length f.content → f ≡ behind f []
behind-nil f e = ground (arith, append-nil f.content)

behind-append : (f : File) (s t : Bytes) → behind (behind f s) t ≡ behind f (s ++ t)
behind-append f s t = rw append_assoc

-- Where there is room for all, all of it is there.
pub after_writes-behind :
    (chunks : List Bytes) (f : File)
    → f.position ≡ length f.content
    → f.position + length (joined chunks) ≤ f.room
    → after_writes f chunks ≡ behind f (joined chunks)
after_writes-behind [] f e fits = behind-nil f e
after_writes-behind (chunk ∷ chunks) f e fits =
    ap (λ g. after_writes g.0 chunks)
      (fwrite_at_end f chunk e (omega (arith, length-append chunk (joined chunks))))
    ∙ (after_writes-behind chunks (behind f chunk) refl
          (omega (arith, length-append chunk (joined chunks), length-append f.content chunk))
        ∙ behind-append f chunk (joined chunks))

take-append_take :
    (n : ℕ) (s t : Bytes) → take n s ++ take (n - length (take n s)) t ≡ take n (s ++ t)
take-append_take zero s t = refl
take-append_take (suc n) [] t = let e : suc n - 0 ≡ suc n = omega arith in ap (λ k. take k t) e
take-append_take (suc n) (c ∷ s) t =
    let e : suc n - suc (length (take n s)) ≡ n - length (take n s) = omega arith in
    ap (◌∷◌ c) (ap (λ k. take n s ++ take k t) e ∙ take-append_take n s t)

abbrev clipped : File → Bytes → Bytes
clipped f bytes = f.content ++ take (f.room - f.position) bytes

-- One write from the end on, as far as there is room.
fwrite-clipped :
    (f : File) (bytes : Bytes)
    → f.position ≡ length f.content
    → f.position ≤ f.room
    → ((fwrite bytes f).0.content ≡ clipped f bytes)
      × ((fwrite bytes f).0.position ≡ f.position + length (take (f.room - f.position) bytes))
      × ((fwrite bytes f).0.room ≡ f.room)
unfolding fwrite
fwrite-clipped f bytes e le =
    let fitting = take (f.room - f.position) bytes in
    (ap (λ p. write_at p fitting f.content) e ∙ write_at_end f.content fitting, refl, refl)

take-nil : (n : ℕ) → ◌≡◌ {A = Bytes} (take n []) []
take-nil zero = refl
take-nil (suc n) = refl

length-take_le : (n : ℕ) (s : Bytes) → length (take n s) ≤ n
length-take_le zero s = omega arith
length-take_le (suc n) [] = omega arith
length-take_le (suc n) (c ∷ s) = omega (arith, length-take_le n s)

-- Where the room ends, what is written is cut, whatever is written after.
pub after_writes-content :
    (chunks : List Bytes) (f : File)
    → f.position ≡ length f.content
    → f.position ≤ f.room
    → (after_writes f chunks).content ≡ f.content ++ take (f.room - f.position) (joined chunks)
after_writes-content [] f e le =
    sym (ap (λ l. f.content ++ l) (take-nil (f.room - f.position)) ∙ append-nil f.content)
after_writes-content (chunk ∷ chunks) f e le =
    let fitting = take (f.room - f.position) chunk in
    let (c, p, r) = fwrite-clipped f chunk e le in
    let end : (fwrite chunk f).0.position ≡ length (fwrite chunk f).0.content =
      p ∙ (omega (arith, e, length-append f.content fitting) ∙ sym (ap length c)) in
    let inside : (fwrite chunk f).0.position ≤ (fwrite chunk f).0.room =
      omega (arith, p, r, length-take_le (f.room - f.position) chunk) in
    let left : (fwrite chunk f).0.room - (fwrite chunk f).0.position
        ≡ f.room - f.position - length fitting =
      omega (arith, p, r) in
    after_writes-content chunks (fwrite chunk f).0 end inside
    ∙ (ap₂ (λ l k. l ++ take k (joined chunks)) c left
        ∙ (append_assoc f.content fitting
              (take (f.room - f.position - length fitting) (joined chunks))
            ∙ ap (λ l. f.content ++ l)
                (take-append_take (f.room - f.position) chunk (joined chunks))))
