-- ===== src/Archive/Loading.antt =====
-- How ImplLib loads the library of 7zip: its constructor in src/7zip/Library.cpp, and the choice of
-- the files in src/main.cpp.
pub mod Laws
pub mod Balance
pub mod Members
use fuse3_p7zip.Base.{ℕ, Bytes, codes, List, [], Bool, true, false, ◌∷◌, Option, none, some}
use fuse3_p7zip.Base.Int.{ℤ}
use fuse3_p7zip.Base.Outcome.{Outcome, ok, throws, fault, ◌>>=◌}
use fuse3_p7zip.Host.{Host}
use fuse3_p7zip.FilePath.{FilePath, from_string, parent_path, append}
use fuse3_p7zip.Dynamic.{
  Linker, Dynamic, Handles, Loads, Reply, found, missing, open_dynamic, close_dynamic, get_sym,
  get_sym_nt,
}
use fuse3_p7zip.Archive.Property.{Variant}
use fuse3_p7zip.Archive.Format.{HandlerProp, Exports, Format, fill_formats}
use fuse3_p7zip.Archive.Method.{Method, MethodExports, fill_methods}
use fuse3_p7zip.Archive.Opening.{Candidate, Library}

-- The members that DEFINE_SYM declares; `none` is null.
pub record Symbols : Type 0 where
  pub create_object : ℕ
  pub get_method_property : ℕ
  pub get_number_of_formats : ℕ
  pub get_number_of_methods : ℕ
  pub get_handler_property : Option ℕ
  pub get_handler_property2 : Option ℕ
  pub set_large_page_mode : Option ℕ

-- The functions at the addresses, by the types to which the symbols are cast.
pub record Code : Type 0 where
  pub func_create_object : ℕ → Bytes → ℤ × Candidate
  pub func_get_method_name : ℕ → ℕ → ℤ × Variant
  pub func_get_number_of_formats : ℕ → ℤ × ℕ
  pub func_get_number_of_methods : ℕ → ℤ × ℕ
  pub func_get_handler_property : ℕ → HandlerProp → ℤ × Variant
  pub func_get_handler_property2 : ℕ → ℕ → HandlerProp → ℤ × Variant

-- `ImplLib`
pub record Lib : Type 0 where
  pub dynamic : Dynamic
  pub symbols : Symbols
  pub formats : List Format
  pub methods : List Method

-- The pointer, which may be null.
unfoldable pub pointer : Reply ℕ → Option ℕ
pointer (found a) = some a
pointer (missing _) = none

unfoldable pub map_pointer {ℓ} : {A : Type ℓ} → (ℕ → A) → Option ℕ → Option A
map_pointer f none = none
map_pointer f (some a) = some (f a)

-- What the members can be called with.
unfoldable pub exports : Code → Symbols → Exports
unfolding map_pointer
exports c s = record {
  get_number_of_formats = c.func_get_number_of_formats s.get_number_of_formats;
  get_handler_property2 = map_pointer c.func_get_handler_property2 s.get_handler_property2;
  get_handler_property = map_pointer c.func_get_handler_property s.get_handler_property;
}

unfoldable pub method_exports : Code → Symbols → MethodExports
method_exports c s = record {
  get_number_of_methods = c.func_get_number_of_methods s.get_number_of_methods;
  get_method_name = c.func_get_method_name s.get_method_property;
}

module _ (h : Host) (linker : Linker) (c : Code) where
  -- GET_LIBRARY_SYM and GET_LIBRARY_SYM_NT, in the order of the constructor.
  unfoldable pub load_symbols : Dynamic → Outcome Symbols
  unfolding get_sym get_sym_nt pointer
  load_symbols d = do
    create ← get_sym linker d (codes "CreateObject")
    method ← get_sym linker d (codes "GetMethodProperty")
    formats ← get_sym linker d (codes "GetNumberOfFormats")
    methods ← get_sym linker d (codes "GetNumberOfMethods")
    ok (record {
      create_object = create;
      get_method_property = method;
      get_number_of_formats = formats;
      get_number_of_methods = methods;
      get_handler_property = pointer (get_sym_nt linker d (codes "GetHandlerProperty"));
      get_handler_property2 = pointer (get_sym_nt linker d (codes "GetHandlerProperty2"));
      set_large_page_mode = pointer (get_sym_nt linker d (codes "SetLargePageMode"));
    })

  -- The body of the constructor.
  unfoldable pub fill_lib : Dynamic → Outcome Lib
  unfolding load_symbols fill_formats fill_methods exports method_exports
  fill_lib d = do
    symbols ← load_symbols d
    formats ← fill_formats h (exports c symbols)
    methods ← fill_methods h (method_exports c symbols)
    ok (record { dynamic = d; symbols = symbols; formats = formats; methods = methods })

  -- An exception in the body of a constructor, or behind an object in scope, closes the library.
  unfoldable pub unwind {ℓ} : {A : Type ℓ} → Dynamic → Loads A → Loads A
  unfolding close_dynamic
  unwind d (ok a, handles) = (ok a, handles)
  unwind d (throws m, handles) = (throws m, close_dynamic linker d handles)
  unwind d (fault, handles) = (fault, handles)

  unfoldable pub and_then {ℓ κ} :
      {A : Type ℓ} {B : Type κ} → Loads A → (A → Handles → Loads B) → Loads B
  and_then (ok a, handles) f = f a handles
  and_then (throws m, handles) f = (throws m, handles)
  and_then (fault, handles) f = (fault, handles)

  -- The constructor, and `open`.
  unfoldable pub open_lib : FilePath → Handles → Loads Lib
  unfolding open_dynamic fill_lib unwind and_then
  open_lib path handles =
      and_then (open_dynamic linker path [] handles) λ d opened. unwind d (fill_lib d, opened)

  -- The file of the library, and beside it that of the Rar codecs.
  unfoldable pub library_path : FilePath
  library_path = elim (h.getenv (codes "FUSE3_P7ZIP_LIBRARY")) [
    | some override ↦ from_string override
    | none ↦ from_string (codes "/usr/lib/7zip/7z.so")
  ]

  unfoldable pub codec_path : FilePath
  unfolding library_path
  codec_path =
      append (append (parent_path library_path) (from_string (codes "Codecs")))
        (from_string (codes "Rar.so"))

  -- What `main` opens: the codecs, where that file is there, and the library.
  unfoldable pub open_libraries : (FilePath → Bool) → Handles → Loads (Option Dynamic × Lib)
  unfolding library_path codec_path open_lib open_dynamic unwind and_then
  open_libraries exists handles = elim (exists codec_path) [
    | true ↦ and_then (open_dynamic linker codec_path [] handles) λ codec opened.
        unwind codec
          (and_then (open_lib library_path opened) λ lib opened'. (ok (some codec, lib), opened'))
    | false ↦ and_then (open_lib library_path handles) λ lib opened. (ok (none, lib), opened)
  ]

-- What the opening of an archive uses of it.
unfoldable pub library_of : Code → Lib → Library
library_of c lib = record {
  exports = exports c lib.symbols;
  formats = lib.formats;
  create_object = c.func_create_object lib.symbols.create_object;
}
