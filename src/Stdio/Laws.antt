-- ===== src/Stdio/Laws.antt =====
-- What reads see of writes.
use fuse3_p7zip.Base.{
  ℕ, zero, suc, ◌+◌, ◌-◌, ◌≤◌, Bytes, ◌≡◌, refl, ap, [], ◌∷◌, ◌++◌, length, take, drop, arith,
  append-nil, length-append, sym, ◌∙◌, replicate, drop-append_length,
}
use fuse3_p7zip.Base.Int.{pos}
use fuse3_p7zip.Stdio.{File, pad, write_at, fwrite, fread, fseek, Whence}

take_all : (n : ℕ) (s : Bytes) → length s ≤ n → take n s ≡ s
take_all zero [] h = refl
take_all zero (c ∷ s) h = absurd (omega arith)
take_all (suc n) [] h = refl
take_all (suc n) (c ∷ s) h = ap (◌∷◌ c) (take_all n s (omega arith))

drop_all : (n : ℕ) (s : Bytes) → length s ≤ n → drop n s ≡ []
drop_all zero [] h = refl
drop_all zero (c ∷ s) h = absurd (omega arith)
drop_all (suc n) [] h = refl
drop_all (suc n) (c ∷ s) h = drop_all n s (omega arith)

no_pad : (n : ℕ) (s : Bytes) → n ≤ length s → pad n s ≡ s
unfolding pad
no_pad n s h = let e : n - length s ≡ 0 = omega arith in rw e (append-nil s)

pub write_at_end : (s bytes : Bytes) → write_at (length s) bytes s ≡ s ++ bytes
unfolding write_at
write_at_end s [] = sym (append-nil s)
write_at_end s (b ∷ bytes) =
    rw
      (
        no_pad (length s) s (omega arith),
        take_all (length s) s (omega arith),
        drop_all (length s + suc (length bytes)) s (omega arith),
      )
      (ap (λ r. s ++ (b ∷ r)) (append-nil bytes))

-- A write at the end that fits puts the bytes behind the contents.
pub fwrite_at_end :
    (f : File) (bytes : Bytes)
    → f.position ≡ length f.content
    → f.position + length bytes ≤ f.room
    → fwrite bytes f ≡ (
      record f { content = f.content ++ bytes; position = length (f.content ++ bytes) },
      length bytes,
    )
unfolding fwrite
fwrite_at_end f bytes e fits = ground (
  arith,
  take_all (f.room - f.position) bytes (omega arith),
  write_at_end f.content bytes,
  length-append f.content bytes,
)

length-replicate : (n : ℕ) (c : ℕ) → length (replicate n c) ≡ n
length-replicate zero c = refl
length-replicate (suc n) c = ap suc (length-replicate n c)

length-pad : (n : ℕ) (s : Bytes) → n ≤ length (pad n s)
unfolding pad
length-pad n s =
    omega (arith, length-append s (replicate (n - length s) 0), length-replicate (n - length s) 0)

pub length-take_of : (n : ℕ) (s : Bytes) → n ≤ length s → length (take n s) ≡ n
length-take_of zero s le = refl
length-take_of (suc n) [] le = absurd (omega arith)
length-take_of (suc n) (c ∷ s) le = ap suc (length-take_of n s (omega arith))

take-append_of : (s t : Bytes) → take (length s) (s ++ t) ≡ s
take-append_of [] t = refl
take-append_of (c ∷ s) t = ap (◌∷◌ c) (take-append_of s t)

drop-drop : (n m : ℕ) (s : Bytes) → drop m (drop n s) ≡ drop (n + m) s
drop-drop zero m s = let e : 0 + m ≡ m = omega arith in ap (λ k. drop k s) (sym e)
drop-drop (suc n) zero [] =
    let e : suc n + 0 ≡ suc (n + 0) = omega arith in ap (λ k. drop k []) (sym e)
drop-drop (suc n) (suc m) [] =
    let e : suc n + suc m ≡ suc (n + suc m) = omega arith in ap (λ k. drop k []) (sym e)
drop-drop (suc n) m (c ∷ s) =
    let e : suc n + m ≡ suc (n + m) = omega arith in
    drop-drop n m s ∙ ap (λ k. drop k (c ∷ s)) (sym e)

-- What stands in front of a write, where it was written, and behind it.
module _ (n : ℕ) (b : ℕ) (bytes content : Bytes) where
  abbrev in_front : Bytes
  in_front = take n (pad n content)

  abbrev rest_of : Bytes
  rest_of = drop (n + suc (length bytes)) content

  length-in_front : length in_front ≡ n
  length-in_front = length-take_of n (pad n content) (length-pad n content)

  pub take-write_at : take n (write_at n (b ∷ bytes) content) ≡ in_front
  unfolding write_at
  take-write_at =
      ap (λ k. take k (in_front ++ ((b ∷ bytes) ++ rest_of))) (sym length-in_front)
      ∙ take-append_of in_front ((b ∷ bytes) ++ rest_of)

  pub drop-write_at : drop n (write_at n (b ∷ bytes) content) ≡ (b ∷ bytes) ++ rest_of
  unfolding write_at
  drop-write_at =
      ap (λ k. drop k (in_front ++ ((b ∷ bytes) ++ rest_of))) (sym length-in_front)
      ∙ drop-append_length in_front ((b ∷ bytes) ++ rest_of)

  pub read_back : take (suc (length bytes)) (drop n (write_at n (b ∷ bytes) content)) ≡ b ∷ bytes
  read_back = ap (take (suc (length bytes))) drop-write_at ∙ take-append_of (b ∷ bytes) rest_of

  pub drop_behind :
      drop (n + suc (length bytes)) (write_at n (b ∷ bytes) content)
      ≡ drop (n + suc (length bytes)) content
  drop_behind =
      sym (drop-drop n (suc (length bytes)) (write_at n (b ∷ bytes) content))
      ∙ (ap (drop (suc (length bytes))) drop-write_at ∙ drop-append_length (b ∷ bytes) rest_of)

-- A write that fits is whole.
pub fwrite_fits :
    (f : File) (bytes : Bytes)
    → f.position + length bytes ≤ f.room
    → (fwrite bytes f).0.content ≡ write_at f.position bytes f.content
unfolding fwrite
fwrite_fits f bytes fits =
    ap (λ s. write_at f.position s f.content) (take_all (f.room - f.position) bytes (omega arith))

-- After a move to a place that is not negative, a read gives the bytes from there on.
pub fread-fseek :
    (f : File) (n offset : ℕ)
    → (fread n (fseek (pos offset) Whence.set f).0).1 ≡ take n (drop offset f.content)
unfolding fread fseek
fread-fseek f n offset = let e : 0 + offset ≡ offset = omega arith in rw e
