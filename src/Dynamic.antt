-- ===== src/Dynamic.antt =====
-- src/library.cpp: a shared library that is open while the object lives. dlopen and dlsym are
-- parameters; which handles the process has open is passed on.
use fuse3_p7zip.Base.{
  ℕ, Bytes, codes, ◌++◌, List, [], ◌∷◌, Option, none, some, ◌==◌, nat_eq, if◌then◌else◌,
}
use fuse3_p7zip.Base.Outcome.{Outcome, ok, throws, fault, ◌>>=◌}
use fuse3_p7zip.FilePath.{FilePath}

-- The bits of the flags of dlopen.
pub data Flag : Type 0 where
  rtld_now rtld_global : Flag
  other_flag : ℕ → Flag

-- A pointer, or null and what `dlerror` returns then.
pub data Reply {ℓ} (A : Type ℓ) : Type ℓ where
  found : A → Reply A
  missing : Option Bytes → Reply A

-- The dynamic linker. Handles and symbols are addresses.
pub record Linker : Type 0 where
  pub dlopen : FilePath → List Flag → Reply ℕ
  pub dlsym : ℕ → Bytes → Reply ℕ

-- `ImplDynamic`
pub record Dynamic : Type 0 where
  pub path : FilePath
  pub flags : List Flag
  pub hnd : ℕ

-- The handles that are open, each as often as it was opened.
abbrev pub Handles : Type 0
Handles = List ℕ

-- What a call returns, and the handles that are open then.
abbrev pub Loads {ℓ} : Type ℓ → Type ℓ
Loads A = Outcome A × Handles

-- `ThrowLibraryError`: a null `dlerror()` is undefined behaviour.
unfoldable pub throw_library_error {ℓ} : {A : Type ℓ} → Bytes → Option Bytes → Outcome A
throw_library_error str none = fault
throw_library_error str (some error) = throws (str ++ codes " " ++ error)

-- `CheckPointer(arg, ThrowLibraryError, str)`
unfoldable pub check_pointer {ℓ} : {A : Type ℓ} → Reply A → Bytes → Outcome A
unfolding throw_library_error
check_pointer (found a) str = ok a
check_pointer (missing error) str = throw_library_error str error

-- `dlclose`
unfoldable pub close : ℕ → Handles → Handles
close hnd [] = []
close hnd (o ∷ os) = let rest = close hnd os in if o == hnd then os else o ∷ rest

module _ (linker : Linker) where
  -- The constructor, and `open`.
  unfoldable pub open_dynamic : FilePath → List Flag → Handles → Loads Dynamic
  unfolding check_pointer
  open_dynamic path flags handles =
      let all : List Flag = rtld_now ∷ rtld_global ∷ flags in
      let dynamic : ℕ → Dynamic = λ hnd. record { path = path; flags = all; hnd = hnd } in
      let reply : Reply ℕ = linker.dlopen path all in
      (
        (check_pointer reply (codes "dlopen") >>= λ hnd. ok (dynamic hnd)),
        elim reply [ found hnd ↦ hnd ∷ handles | missing _ ↦ handles ],
      )

  -- The destructor.
  unfoldable pub close_dynamic : Dynamic → Handles → Handles
  unfolding close
  close_dynamic d handles = close d.hnd handles

  unfoldable pub get_sym_nt : Dynamic → Bytes → Reply ℕ
  get_sym_nt d name = linker.dlsym d.hnd name

  unfoldable pub get_sym : Dynamic → Bytes → Outcome ℕ
  unfolding get_sym_nt check_pointer
  get_sym d name = check_pointer (get_sym_nt d name) (codes "dlsym")
