-- ===== src/Backend/Construction.antt =====
-- The constructor of `OpcUABackend` (src/OPC-UA-Backend.cc), with the end of `fillCatalogue` and of
-- `saveCatalogue` (src/CatalogueCache.cc).
pub mod Cached
use device_access_opc_ua_bac.Prelude.{
  ℕ, Bool, true, false, Text, codes, List, [], ◌++◌, Option, none, some, if◌then◌else◌, text_eq,
}
use device_access_opc_ua_bac.System.{
  System, M, ◌>>=◌, ◌>>◌, pure, throw, fail, null_pointer, terminated,
}
use device_access_opc_ua_bac.Xml
use device_access_opc_ua_bac.Xml.{
  Error, logic_error, runtime_error, out_of_range_error, invalid_argument_error, Result, Branch,
  Document,
}
use device_access_opc_ua_bac.Catalogue.{RegisterInfo}
use device_access_opc_ua_bac.Catalogue.Filling
use device_access_opc_ua_bac.Catalogue.Filling.{Filling}
use device_access_opc_ua_bac.Cache.{catalogue_document}
use device_access_opc_ua_bac.Cache.Reading.{read_catalogue}
use device_access_opc_ua_bac.Backend.{ConnectAnswer, connect}

-- The catalogue of the device, `_catalogue_filled`, and the cache file as it is then; `none` is a file
-- that is not there or cannot be parsed.
pub record Built : Type 0 where
  pub catalogue : List RegisterInfo
  pub is_filled : Bool
  pub file : Option (Document Branch)

-- The type of an exception.
unfoldable pub error_name : Error → Text
error_name logic_error = codes "ChimeraTK::logic_error"
error_name runtime_error = codes "ChimeraTK::runtime_error"
error_name out_of_range_error = codes "std::out_of_range"
error_name invalid_argument_error = codes "std::invalid_argument"

-- How the file system answers to the temporary file and its renaming.
pub data SaveAnswer : Type 0 where
  saved : SaveAnswer
  no_temporary_path : Text → SaveAnswer
  nothing_written : SaveAnswer
  not_renamed : Text → SaveAnswer

-- The filling as it ends. A walk over the server that does not end uses up the stack.
unfoldable pub leave : Filling → M (List RegisterInfo)
unfolding error_name
leave (Filling.filled c) = pure c
leave (Filling.stopped e c) = throw (error_name e)
leave Filling.broken = fail null_pointer
leave Filling.endless = fail terminated

-- `register_path` and `serialize` are of the library, and so is what the file of a document reads as.
module _ (register_path : Text → Text) (serialize : Bool → Text)
    (deserialize : Text → Result (Unit {0}))
    (add_register : List RegisterInfo → RegisterInfo → List RegisterInfo)
    (written : Document Branch → Document Branch) where
  unfoldable pub save_catalogue : SaveAnswer → List RegisterInfo → M (Option (Document Branch))
  unfolding catalogue_document
  save_catalogue saved c = pure (some (written (catalogue_document register_path serialize c)))
  save_catalogue (no_temporary_path reason) c =
      throw (codes "Failed to generate temporary path: " ++ reason)
  save_catalogue nothing_written c = throw (codes "Failed to save cache File")
  save_catalogue (not_renamed reason) c = throw (codes "Failed to replace cache file: " ++ reason)

  unfoldable pub save_if_named :
      Text
      → SaveAnswer
      → Option (Document Branch)
      → List RegisterInfo
      → M (Option (Document Branch))
  unfolding save_catalogue
  save_if_named cache_file storing old c =
      if text_eq cache_file [] then pure old else save_catalogue storing c

  -- `connect` and then `fillCatalogue`.
  unfoldable pub connect_and_fill :
      Text → Text → ConnectAnswer → Filling → SaveAnswer → Option (Document Branch) → M Built
  unfolding connect leave save_if_named
  connect_and_fill cache_file address ans filling storing old = do
    connect address ans
    c ← leave filling
    file ← save_if_named cache_file storing old c
    pure (record { catalogue = c; is_filled = true; file = file })

  -- `catch(ChimeraTK::logic_error&)`
  unfoldable pub after_reading :
      Result (List RegisterInfo) → Option (Document Branch) → M Built → M Built
  unfolding error_name
  after_reading (Xml.ok c) file otherwise =
      pure (record { catalogue = c; is_filled = true; file = file })
  after_reading (Xml.throws logic_error) file otherwise = otherwise
  after_reading (Xml.throws e) file otherwise = throw (error_name e)
  after_reading Xml.undefined file otherwise = fail null_pointer

  unfoldable pub construct :
      Text → Text → ConnectAnswer → Filling → SaveAnswer → Option (Document Branch) → M Built
  unfolding connect_and_fill after_reading read_catalogue
  construct cache_file address ans filling storing file =
      if text_eq cache_file []
      then connect_and_fill cache_file address ans filling storing file
      else after_reading (read_catalogue deserialize add_register file) file
          (connect_and_fill cache_file address ans filling storing file)
