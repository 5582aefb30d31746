-- ===== src/Archive/Loading/Laws.antt =====
-- The symbols and the handles of the library of 7zip.
use fuse3_p7zip.Base.{
  ℕ, suc, Bytes, codes, List, [], ◌∷◌, Option, none, some, ◌≡◌, refl, ap, ◌⊎◌, inl, inr, nat_eq,
  false,
}
use fuse3_p7zip.Base.Outcome.{Outcome, ok, fault, ◌>>=◌}
use fuse3_p7zip.Host.{Host}
use fuse3_p7zip.Dynamic.{
  Linker, Dynamic, Reply, found, missing, get_sym, get_sym_nt, throw_library_error, check_pointer,
}
use fuse3_p7zip.Exception.{check_com}
use fuse3_p7zip.Archive.Format.{Exports, fill_formats, make_format}
use fuse3_p7zip.Archive.Loading.{
  exports, map_pointer, pointer, Symbols, Code, load_symbols, fill_lib,
}

-- The symbols without which the library is refused.
abbrev pub mandatory : List Bytes
mandatory =
    codes "CreateObject"
    ∷ codes "GetMethodProperty"
    ∷ codes "GetNumberOfFormats"
    ∷ codes "GetNumberOfMethods"
    ∷ []

-- What `dlerror` says of the first of the names that is missing.
unfoldable pub first_missing : Linker → Dynamic → List Bytes → Option (Option Bytes)
first_missing l d [] = none
first_missing l d (n ∷ ns) =
    let rest = first_missing l d ns in
    elim (l.dlsym d.hnd n) [ found _ ↦ rest | missing error ↦ some error ]

pub Reply-cases {ℓ} :
    {A : Type ℓ} (r : Reply A) → ((a : A) × (r ≡ found a)) ⊎ ((e : Option Bytes) × (r ≡ missing e))
Reply-cases (found a) = inl (a, refl)
Reply-cases (missing e) = inr (e, refl)

throw->>= {ℓ κ} :
    {A : Type ℓ} {B : Type κ} (str : Bytes) (e : Option Bytes) (f : A → Outcome B)
    → (throw_library_error str e >>= f) ≡ throw_library_error str e
unfolding throw_library_error
throw->>= str none f = refl
throw->>= str (some e) f = refl

-- With no function to ask, the first format's properties are asked of a null pointer.
no_formats :
    (h : Host) (lib : Exports) (n : ℕ)
    → h.is_failed lib.get_number_of_formats.0 ≡ false
    → lib.get_number_of_formats.1 ≡ suc n
    → lib.get_handler_property2 ≡ none
    → lib.get_handler_property ≡ none
    → fill_formats h lib ≡ fault
unfolding fill_formats check_com make_format
no_formats h lib n f m g₂ g = rw (f, m, fill_formats, g₂, g) refl

-- The address that is given, or null.
abbrev pub given : Reply ℕ → Option ℕ
given (found a) = some a
given (missing error) = none

pointer-given : (r : Reply ℕ) → pointer r ≡ given r
unfolding pointer
pointer-given (found a) = refl
pointer-given (missing error) = refl

module _ (h : Host) (l : Linker) (c : Code) (d : Dynamic) where
  -- What each member is.
  abbrev pub Found : Symbols → Type 0
  Found s =
      (l.dlsym d.hnd (codes "CreateObject") ≡ found s.create_object)
      × (l.dlsym d.hnd (codes "GetMethodProperty") ≡ found s.get_method_property)
      × (l.dlsym d.hnd (codes "GetNumberOfFormats") ≡ found s.get_number_of_formats)
      × (l.dlsym d.hnd (codes "GetNumberOfMethods") ≡ found s.get_number_of_methods)
      × (s.get_handler_property ≡ given (l.dlsym d.hnd (codes "GetHandlerProperty")))
      × (s.get_handler_property2 ≡ given (l.dlsym d.hnd (codes "GetHandlerProperty2")))
      × (s.set_large_page_mode ≡ given (l.dlsym d.hnd (codes "SetLargePageMode")))

  -- The symbols are loaded just if none of the four that are mandatory is missing. Each of the
  -- seven members is then what dlsym gives for its name, the three that are optional null where it
  -- gives nothing. Else what is done is the error of the first mandatory one that is missing.
  pub load_symbols-first_missing :
      ((s : Symbols) × (load_symbols h l c d ≡ ok s)
        × (first_missing l d mandatory ≡ none)
        × Found s)
      ⊎ ((e : Option Bytes) × (first_missing l d mandatory ≡ some e)
          × (load_symbols h l c d ≡ throw_library_error (codes "dlsym") e))
  unfolding load_symbols first_missing get_sym get_sym_nt check_pointer
  load_symbols-first_missing = elim (Reply-cases (l.dlsym d.hnd (codes "CreateObject"))) [
    | inr (e, q) ↦
        inr (e, rw (q, first_missing) refl, rw (q, load_symbols, check_pointer, throw->>=) refl)
    | inl (a₁, p₁) ↦ elim (Reply-cases (l.dlsym d.hnd (codes "GetMethodProperty"))) [
      | inr (e, q) ↦ inr (
        e,
        rw (p₁, q, first_missing) refl,
        rw (p₁, q, load_symbols, check_pointer, throw->>=) refl,
      )
      | inl (a₂, p₂) ↦ elim (Reply-cases (l.dlsym d.hnd (codes "GetNumberOfFormats"))) [
        | inr (e, q) ↦ inr (
          e,
          rw (p₁, p₂, q, first_missing) refl,
          rw (p₁, p₂, q, load_symbols, check_pointer, throw->>=) refl,
        )
        | inl (a₃, p₃) ↦ elim (Reply-cases (l.dlsym d.hnd (codes "GetNumberOfMethods"))) [
          | inr (e, q) ↦ inr (
            e,
            rw (p₁, p₂, p₃, q, first_missing) refl,
            rw (p₁, p₂, p₃, q, load_symbols, check_pointer, throw->>=) refl,
          )
          | inl (a₄, p₄) ↦ inl (
            record {
              create_object = a₁;
              get_method_property = a₂;
              get_number_of_formats = a₃;
              get_number_of_methods = a₄;
              get_handler_property = pointer (get_sym_nt l d (codes "GetHandlerProperty"));
              get_handler_property2 = pointer (get_sym_nt l d (codes "GetHandlerProperty2"));
              set_large_page_mode = pointer (get_sym_nt l d (codes "SetLargePageMode"));
            },
            rw (p₁, p₂, p₃, p₄, load_symbols) refl,
            rw (p₁, p₂, p₃, p₄, first_missing) refl,
            (p₁, p₂, p₃, p₄, pointer-given _, pointer-given _, pointer-given _),
          )
        ]
      ]
    ]
  ]

  -- A library with all symbols that are mandatory, but with neither function for the properties of
  -- handlers, and with at least one format, is not refused: to construct ImplLib is undefined
  -- behaviour.
  pub fill_lib-fault :
      (s : Symbols) (n : ℕ)
      → load_symbols h l c d ≡ ok s
      → s.get_handler_property ≡ none
      → s.get_handler_property2 ≡ none
      → h.is_failed (exports c s).get_number_of_formats.0 ≡ false
      → (exports c s).get_number_of_formats.1 ≡ suc n
      → fill_lib h l c d ≡ fault
  unfolding fill_lib exports map_pointer
  fill_lib-fault s n e g g₂ f m =
      rw
        (
          e,
          fill_lib,
          no_formats h (exports c s) n f m (ap (map_pointer c.func_get_handler_property2) g₂)
              (ap (map_pointer c.func_get_handler_property) g),
        )
        refl
