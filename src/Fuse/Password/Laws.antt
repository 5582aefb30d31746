-- ===== src/Fuse/Password/Laws.antt =====
-- The password sources of src/fuse3.cpp over several calls, and the loop of `exec`.
use fuse3_p7zip.Base.{
  ℕ, zero, suc, ◌≤◌, Bytes, codes, ◌≡◌, ◌≢◌, refl, ap, subst, [], ◌∷◌, ◌++◌, Option, none, some,
  ◌==◌, nat_eq, list_eq, arith, length, inl, inr, Bool-cases, beq_ne,
}
use fuse3_p7zip.Host.{done}
use fuse3_p7zip.FilePath.Laws.{Lacks}
use fuse3_p7zip.Text.Encoding.{until_nul}
use fuse3_p7zip.Fuse.Password.{
  Password, from_text, from_file, Shell, fgets, buffer_size, read_lines, exec, get, ask, keep,
}

-- What `fgets` takes and what it leaves are the input.
fgets-append : (n : ℕ) (s : Bytes) → (fgets n s).0 ++ (fgets n s).1 ≡ s
unfolding fgets
fgets-append zero s = refl
fgets-append (suc zero) s = refl
fgets-append (suc (suc n)) [] = refl
fgets-append (suc (suc n)) (c ∷ s) = ground (arith, fgets-append (suc n) s)

fgets-length : (n : ℕ) (s : Bytes) → length (fgets n s).1 ≤ length s
unfolding fgets
fgets-length zero s = omega arith
fgets-length (suc zero) s = omega arith
fgets-length (suc (suc n)) [] = omega arith
fgets-length (suc (suc n)) (c ∷ s) = ground (arith, fgets-length (suc n) s)

fgets-Lacks : (n c : ℕ) (s : Bytes) → Lacks c s → Lacks c (fgets n s).0 × Lacks c (fgets n s).1
unfolding fgets
fgets-Lacks zero c s l = (tt, l)
fgets-Lacks (suc zero) c s l = (tt, l)
fgets-Lacks (suc (suc n)) c [] l = (tt, tt)
fgets-Lacks (suc (suc n)) c (b ∷ s) (ne, l) = ground (arith, fgets-Lacks (suc n) c s l)

fgets_progress : (n c : ℕ) (s : Bytes) → 2 ≤ n → length (fgets n (c ∷ s)).1 ≤ length s
unfolding fgets
fgets_progress zero c s le = absurd (omega arith)
fgets_progress (suc zero) c s le = absurd (omega arith)
fgets_progress (suc (suc n)) c s le = ground (arith, fgets-length (suc n) s)

-- One round takes a byte or more.
round_length :
    (c : ℕ) (s : Bytes) (fuel : ℕ)
    → length (c ∷ s) ≤ suc fuel
    → length (fgets buffer_size (c ∷ s)).1 ≤ fuel
round_length c s fuel le = le_trans (fgets_progress buffer_size c s (omega arith)) (omega arith)
  where
    le_trans : {a b d : ℕ} → a ≤ b → b ≤ d → a ≤ d
    le_trans p q = omega arith

until_nul_id : (s : Bytes) → Lacks 0 s → until_nul s ≡ s
unfolding until_nul
until_nul_id [] l = refl
until_nul_id (c ∷ s) (ne, l) = rw (beq_ne c 0 ne) (ap (◌∷◌ c) (until_nul_id s l))

read_lines_lem :
    (fuel : ℕ) (output : Bytes)
    → Lacks 0 output
    → length output ≤ fuel
    → read_lines fuel output ≡ output
unfolding read_lines
read_lines_lem zero [] l le = refl
read_lines_lem zero (c ∷ output) l le = absurd (omega arith)
read_lines_lem (suc fuel) [] l le = refl
read_lines_lem (suc fuel) (c ∷ output) l le =
    let (line, rest) = fgets-Lacks buffer_size 0 (c ∷ output) l in
    rw
      (
        until_nul_id (fgets buffer_size (c ∷ output)).0 line,
        read_lines_lem fuel (fgets buffer_size (c ∷ output)).1 rest (round_length c output fuel le),
      )
      (fgets-append buffer_size (c ∷ output))

-- If the command can be run, and no byte of its output is 0, `exec` returns all of its output,
-- however long its lines are.
pub exec_lem :
    (sh : Shell) (archive path output : Bytes)
    → sh.popen (path ++ (codes " '" ++ (archive ++ codes "'"))) ≡ done output
    → Lacks 0 output
    → exec sh archive path ≡ some output
unfolding exec
exec_lem sh archive path output printed l =
    rw (printed, exec) (ap some (read_lines_lem (length output) output l (omega arith)))

some_injective {ℓ} : {A : Type ℓ} {a b : A} → some a ≡ some b → a ≡ b
some_injective e = cc

-- What `get` may leave: an object that gives the password again.
abbrev Again : Bytes × Password → Type 0
Again (password, q) = password ≢ [] → (after : Shell) → get after q ≡ some (password, q)

kept-Again : (archive path password : Bytes) → Again (password, from_file archive path password)
unfolding get
kept-Again archive path password ne after = rw (beq_ne password [] ne, get) refl

asked-Again :
    (archive path password : Bytes) (q : Password) (answer : Option Bytes)
    → keep archive path answer ≡ some (password, q)
    → Again (password, q)
unfolding keep
asked-Again archive path password q none e = cc
asked-Again archive path password q (some text) e =
    subst Again (some_injective e) (kept-Again archive path text)

-- If `get` gave a password that is not empty, `get` of the object as it was left gives it again,
-- whatever has become of the files and commands.
get-get :
    (before after : Shell) (p q : Password) (password : Bytes)
    → get before p ≡ some (password, q)
    → password ≢ []
    → get after q ≡ some (password, q)
unfolding get
get-get before after (from_text text) q password e ne =
    let same : q ≡ from_text text = cc in
    let text_same : text ≡ password = cc in rw (same, text_same) refl
get-get before after (from_file archive path kept) q password e ne =
    elim (Bool-cases (kept == [])) [
      | inl asks ↦
          asked-Again archive path password q (ask before archive path) (ground (arith, asks, e)) ne
            after
      | inr has ↦
          subst Again (some_injective (ground (arith, has, e))) (kept-Again archive path kept) ne
            after
    ]
