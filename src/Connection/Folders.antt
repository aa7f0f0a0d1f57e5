-- ===== src/Connection/Folders.antt =====
-- The folders of certificates and lists that include/OPC-UA-Connection.h reads.
use device_access_opc_ua_bac.Prelude.{
  Bool, true, ◌&&◌, ◌≡◌, refl, Text, List, [], ◌∷◌, map, Option, some, arith, Bool-cases, inl, inr,
  length, if◌then◌else◌, ◌==◌, ◌⊎◌,
}
use device_access_opc_ua_bac.Xml.{ok, undefined}
use device_access_opc_ua_bac.Connection.{
  OpenFile, is_dots, path_in, fits_buffer, loaded, load_file, load_entries,
}

-- The entries of a directory but for the two with dots.
abbrev pub proper : List Text → List Text
proper [] = []
proper (n ∷ ns) = if is_dots n then proper ns else n ∷ proper ns

-- What was loaded is the whole file, or nothing.
loaded-whole : (f : OpenFile) → (loaded (some f) ≡ []) ⊎ (length (loaded (some f)) ≡ f.told)
unfolding loaded
loaded-whole f = elim (Bool-cases (f.is_allocated && length f.bytes == f.told)) [
  | inl on ↦ inr (rw on (ground arith))
  | inr off ↦ inl (rw off refl)
]

-- Every path fits into the buffer.
abbrev pub all_fit : Text → List Text → Bool
all_fit dir [] = true
all_fit dir (n ∷ ns) = fits_buffer (path_in dir n) && all_fit dir ns

module _ (fopen : Text → Option OpenFile) (opendir : Text → Option (List Text)) where
  -- Where the path of every entry but "." and ".." is at most 1023 characters long, what is loaded from
  -- a folder is one element for each of them, its file, in the order of the folder; with any longer path
  -- the buffer overflows.
  pub load_entries-fits :
      (dir : Text) (names : List Text)
      → load_entries fopen opendir dir names ≡ (
          if all_fit dir (proper names)
          then ok (map (λ n. load_file fopen opendir (path_in dir n)) (proper names))
          else undefined)
  unfolding load_entries
  load_entries-fits dir [] = refl
  load_entries-fits dir (n ∷ ns) = elim (Bool-cases (is_dots n)) [
    | inl on ↦ rw on (load_entries-fits dir ns)
    | inr off ↦ elim (Bool-cases (fits_buffer (path_in dir n))) [
      | inl short ↦
          rw (off, short, load_entries-fits dir ns)
            (elim (Bool-cases (all_fit dir (proper ns))) [
              | inl all ↦ rw all refl
              | inr not_all ↦ rw not_all refl
            ])
      | inr long ↦ rw (off, long) refl
    ]
  ]
