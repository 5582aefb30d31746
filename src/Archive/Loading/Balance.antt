-- ===== src/Archive/Loading/Balance.antt =====
-- The handles that are open when the loading of the libraries has ended.
use fuse3_p7zip.Base.{
  ℕ, List, [], ◌∷◌, ◌++◌, Option, none, some, ◌≡◌, refl, ap, sym, subst, ◌∙◌, inl, inr, nat_eq,
  Bool, beq_refl, Bool-cases,
}
use fuse3_p7zip.Base.Outcome.{
  ok, throws, fault, Outcome-cases, Ensures, returned, >>=-Ensures, of_Ensures,
}
use fuse3_p7zip.Host.{Host}
use fuse3_p7zip.FilePath.{FilePath}
use fuse3_p7zip.Dynamic.{
  rtld_now, rtld_global, Linker, Dynamic, Flag, Handles, Loads, close, close_dynamic, open_dynamic,
  throw_library_error, check_pointer,
}
use fuse3_p7zip.Archive.Loading.{
  Code, Lib, fill_lib, unwind, and_then, open_lib, library_path, codec_path, open_libraries,
}
use fuse3_p7zip.Archive.Loading.Laws.{Reply-cases}

-- What is open when the call has returned, and when it has thrown.
abbrev Ends {ℓ} : {A : Type ℓ} → (A → Handles) → Handles → Loads A → Type 0
Ends kept left (ok a, after) = after ≡ kept a
Ends kept left (throws m, after) = after ≡ left
Ends kept left (fault, after) = Unit

-- If the call returns, it has opened what the result holds; if it throws, all is as it was.
abbrev pub IsBalanced {ℓ} : {A : Type ℓ} → (A → Handles) → Handles → Loads A → Type 0
IsBalanced held before r = Ends (λ a. held a ++ before) before r

pub close_head : (hnd : ℕ) (os : Handles) → close hnd (hnd ∷ os) ≡ os
unfolding close
close_head hnd os = rw (beq_refl hnd) refl

-- What `main` has open then.
abbrev pub held : Option Dynamic × Lib → Handles
held (none, lib) = lib.dynamic.hnd ∷ []
held (some codec, lib) = lib.dynamic.hnd ∷ codec.hnd ∷ []

module _ (h : Host) (l : Linker) (c : Code) where
  open_dynamic-IsBalanced :
      (path : FilePath) (flags : List Flag) (before : Handles)
      → IsBalanced (λ d. d.hnd ∷ []) before (open_dynamic l path flags before)
  unfolding open_dynamic check_pointer throw_library_error
  open_dynamic-IsBalanced path flags before =
      elim (Reply-cases (l.dlopen path (rtld_now ∷ rtld_global ∷ flags))) [
        | inl (hnd, e) ↦ rw (e, open_dynamic) refl
        | inr (none, e) ↦ rw (e, open_dynamic) tt
        | inr (some m, e) ↦ rw (e, open_dynamic) refl
      ]

  unwind-Ends {ℓ} :
      {A : Type ℓ} (done : A → Handles) (d : Dynamic) (before : Handles) (r : Loads A)
      → Ends done (d.hnd ∷ before) r
      → Ends done before (unwind h l c d r)
  unfolding unwind close_dynamic
  unwind-Ends done d before (ok a, after) b = b
  unwind-Ends done d before (throws m, after) b = ap (close d.hnd) b ∙ close_head d.hnd before
  unwind-Ends done d before (fault, after) b = tt

  and_then-Ends {ℓ κ} :
      {A : Type ℓ} {B : Type κ} (done : A → Handles) (done' : B → Handles) (before : Handles)
      (r : Loads A) (f : A → Handles → Loads B)
      → Ends done before r
      → ((a : A) → Ends done' before (f a (done a)))
      → Ends done' before (and_then h l c r f)
  unfolding and_then
  and_then-Ends done done' before (ok a, after) f b k =
      subst (λ hs. Ends done' before (f a hs)) (sym b) (k a)
  and_then-Ends done done' before (throws m, after) f b k = b
  and_then-Ends done done' before (fault, after) f b k = tt

  -- The library that is built holds the handle that was opened for it.
  fill_lib-dynamic : (d : Dynamic) → Ensures (λ lib. lib.dynamic ≡ d) (fill_lib h l c d)
  unfolding fill_lib
  fill_lib-dynamic d = search (>>=-Ensures, returned) depth 14

  fill_lib-Ends :
      (d : Dynamic) (before : Handles)
      → Ends (λ lib. lib.dynamic.hnd ∷ before) (d.hnd ∷ before) (fill_lib h l c d, d.hnd ∷ before)
  fill_lib-Ends d before = elim (Outcome-cases (fill_lib h l c d)) [
    | inl (lib, e) ↦ rw e (
        ap (λ d. d.hnd ∷ before)
          (sym (of_Ensures (λ lib. lib.dynamic ≡ d) _ (fill_lib-dynamic d) e)))
    | inr (inl (m, e)) ↦ rw e refl
    | inr (inr e) ↦ rw e tt
  ]

  pub open_lib-IsBalanced :
      (path : FilePath) (before : Handles)
      → IsBalanced (λ lib. lib.dynamic.hnd ∷ []) before (open_lib h l c path before)
  unfolding open_lib
  open_lib-IsBalanced path before =
      and_then-Ends (λ d. d.hnd ∷ before) (λ lib. lib.dynamic.hnd ∷ before) before
        (open_dynamic l path [] before) _ (open_dynamic-IsBalanced path [] before)
        (λ d. unwind-Ends _ d before (fill_lib h l c d, d.hnd ∷ before) (fill_lib-Ends d before))

  -- If the libraries are loaded, the handles that are open are those before, and those of the
  -- library and of the codecs, if there are any; if an exception is thrown, they are those before.
  pub open_libraries-IsBalanced :
      (exists : FilePath → Bool) (before : Handles)
      → IsBalanced held before (open_libraries h l c exists before)
  unfolding open_libraries
  open_libraries-IsBalanced exists before = elim (Bool-cases (exists (codec_path h l c))) [
    | inl e ↦
        rw (e, open_libraries)
          (and_then-Ends (λ d. d.hnd ∷ before) (λ a. held a ++ before) before _ _
            (open_dynamic-IsBalanced (codec_path h l c) [] before)
            (λ codec.
              unwind-Ends (λ a. held a ++ before) codec before _
                (and_then-Ends (λ lib. lib.dynamic.hnd ∷ codec.hnd ∷ before) (λ a. held a ++ before)
                  (codec.hnd ∷ before) _ _
                  (open_lib-IsBalanced (library_path h l c) (codec.hnd ∷ before)) (λ lib. refl))))
    | inr e ↦
        rw (e, open_libraries)
          (and_then-Ends (λ lib. lib.dynamic.hnd ∷ before) (λ a. held a ++ before) before _ _
            (open_lib-IsBalanced (library_path h l c) before) (λ lib. refl))
  ]
