-- ===== src/Connection.antt =====
-- The constructor of `OPCUAConnection` with the files that it reads (include/OPC-UA-Connection.h), and
-- how `connect` of src/OPC-UA-Backend.cc logs in. What the operating system answers is a parameter, and
-- what the OPC UA library is given is the configuration that comes out.
pub mod Credentials
pub mod Folders
use device_access_opc_ua_bac.Prelude.{
  ℕ, Bool, true, false, not, ◌&&◌, ◌||◌, ◌+◌, ◌%◌, ◌^◌, Text, codes, List, [], ◌∷◌, ◌++◌, Option,
  none, some, ltb, ◌==◌, length, if◌then◌else◌, text_eq,
}
use device_access_opc_ua_bac.Xml.{Result, ok, undefined, ◌>>=◌}
use device_access_opc_ua_bac.Parameters.{Options}

-- A file that could be opened: what `ftell` told at its end as a `size_t`, whether the memory was
-- there, and what `fread` gave.
pub record OpenFile : Type 0 where
  pub told : ℕ
  pub is_allocated : Bool
  pub bytes : List ℕ

-- Which certificates the client trusts.
pub data Trust : Type 0 where
  accept_all : Trust
  listed : List (List ℕ) → List (List ℕ) → Trust

pub record Encryption : Type 0 where
  pub certificate : List ℕ
  pub private_key : List ℕ
  pub trust : Trust

pub record ClientConfig : Type 0 where
  pub encryption : Option Encryption
  pub token : Option (Text × Text)
  pub timeout : ℕ

abbrev pub is_given : Text → Bool
is_given t = not (text_eq t [])

-- `strcmp` with the entries of every directory.
unfoldable pub is_dots : Text → Bool
is_dots name = text_eq name (codes ".") || text_eq name (codes "..")

abbrev pub path_in : Text → Text → Text
path_in dir name = dir ++ (b'/' ∷ name)

-- `sprintf` into a buffer of 1024 bytes writes the path and a zero.
unfoldable pub fits_buffer : Text → Bool
fits_buffer path = ltb (length path) 1024

unfoldable pub is_encrypted {ℓ} : {D : Type ℓ} → Options D → Bool
is_encrypted o = is_given o.certificate && is_given o.private_key

-- The user identity token is set up only with an encryption.
unfoldable pub token_of {ℓ} : {D : Type ℓ} → Options D → Option (Text × Text)
token_of o =
    if is_given o.username && is_given o.password then some (o.username, o.password) else none

unfoldable pub loaded : Option OpenFile → List ℕ
loaded none = []
loaded (some f) = if f.is_allocated && length f.bytes == f.told then f.bytes else []

module _ (fopen : Text → Option OpenFile) (opendir : Text → Option (List Text)) where
  unfoldable pub load_file : Text → List ℕ
  unfolding loaded
  load_file path = loaded (fopen path)

  -- The loop over the entries; a path that is too long is written beyond the buffer.
  unfoldable pub load_entries : Text → List Text → Result (List (List ℕ))
  unfolding is_dots fits_buffer load_file
  load_entries dir [] = ok []
  load_entries dir (name ∷ names) =
      let rest = load_entries dir names in
      if is_dots name
      then rest
      else if fits_buffer (path_in dir name)
      then (do files ← rest; ok (load_file (path_in dir name) ∷ files))
      else undefined

  -- A directory that cannot be opened has a null pointer for its stream, which `closedir` is given. The
  -- standard does not define that; the C library of GNU refuses it, and there are no files.
  unfoldable pub load_files_from_dir : Text → Result (List (List ℕ))
  unfolding load_entries
  load_files_from_dir dir = elim (opendir dir) [
    | none ↦ ok []
    | some names ↦ load_entries dir names
  ]

  unfoldable pub trust_of {ℓ} : {D : Type ℓ} → Options D → Result Trust
  unfolding load_files_from_dir
  trust_of o = if o.trust_any then ok accept_all else (do
    trusted ← load_files_from_dir o.trust_list_folder
    revoked ← load_files_from_dir o.revocation_list_folder
    ok (listed trusted revoked))

  unfoldable pub configure {ℓ} : {D : Type ℓ} → Options D → Result ClientConfig
  unfolding is_encrypted token_of load_file trust_of
  configure o =
      let limit : ℕ = o.connection_timeout % 2 ^ 32 in
      if is_encrypted o
      then (do
        trust ← trust_of o
        ok (record {
          encryption = some (record {
            certificate = load_file o.certificate;
            private_key = load_file o.private_key;
            trust = trust;
          });
          token = token_of o;
          timeout = limit;
        }))
      else ok (record { encryption = none; token = none; timeout = limit })

-- The call that `connect` makes: with the configuration alone, or with a name and a password.
pub data Login : Type 0 where
  by_config : Login
  by_username : Text → Text → Login

unfoldable pub login_of {ℓ} : {D : Type ℓ} → Options D → Login
unfolding is_encrypted
login_of o =
    if is_encrypted o
    then by_config
    else if not (is_given o.username) || not (is_given o.password)
    then by_config
    else by_username o.username o.password
