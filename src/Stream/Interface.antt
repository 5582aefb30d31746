-- ===== src/Stream/Interface.antt =====
-- IFile of include/7zip.hpp: the stream behind a handle, as the callbacks see it, and what they rely
-- on.
use fuse3_p7zip.Base.{ℕ, ◌+◌, ◌<◌, ◌^◌, ◌≡◌, ◌∙◌, ap, Bytes, length, take, drop}
use fuse3_p7zip.Stdio.{Whence}

pub record IFile {ℓ} (S : Type ℓ) : Type ℓ where
  pub read : ℕ → S → S × Bytes
  pub write : Bytes → S → S × ℕ
  pub seek : ℕ → Whence → S → S × ℕ

-- The stream has contents and stands somewhere in them: neither a seek nor a read changes the
-- contents, and a read gives what stands there, and moves on by that.
pub record IsFile {ℓ} {S : Type ℓ} (file : IFile S) : Type ℓ where
  pub content : S → Bytes
  pub position : S → ℕ
  pub seek-position : (n : ℕ) (s : S) → n < 2 ^ 63 → position (file.seek n Whence.set s).0 ≡ n
  pub seek-content :
      (n : ℕ) (whence : Whence) (s : S) → content (file.seek n whence s).0 ≡ content s
  pub read-bytes :
      (size : ℕ) (s : S) → (file.read size s).1 ≡ take size (drop (position s) (content s))
  pub read-content : (size : ℕ) (s : S) → content (file.read size s).0 ≡ content s
  pub read-position :
      (size : ℕ) (s : S) → position (file.read size s).0 ≡ position s + length (file.read size s).1

-- A seek to that place, and a read there.
abbrev pub read_at {ℓ} : {S : Type ℓ} → IFile S → ℕ → ℕ → S → S × Bytes
read_at file n size s = let (t, _) = file.seek n Whence.set s in file.read size t

module _ {ℓ} {S : Type ℓ} (file : IFile S) (is : IsFile file) where
  pub read_at-slice :
      (n size : ℕ) (s : S)
      → n < 2 ^ 63
      → (read_at file n size s).1 ≡ take size (drop n (is.content s))
  read_at-slice n size s lt =
      let t : S = (file.seek n Whence.set s).0 in
      is.read-bytes size t
      ∙ ap (λ k. take size (drop k (is.content t))) (is.seek-position n s lt)
      ∙ ap (λ c. take size (drop n c)) (is.seek-content n Whence.set s)

  pub read_at-content : (n size : ℕ) (s : S) → is.content (read_at file n size s).0 ≡ is.content s
  read_at-content n size s =
      is.read-content size (file.seek n Whence.set s).0 ∙ is.seek-content n Whence.set s
