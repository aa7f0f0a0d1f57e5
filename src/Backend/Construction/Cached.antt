-- ===== src/Backend/Construction/Cached.antt =====
-- A second start of a device from the cache file of the first: the constructor in src/OPC-UA-Backend.cc.
use device_access_opc_ua_bac.Prelude.{
  Bool, true, false, ◌≡◌, ◌≢◌, ◌∙◌, refl, Text, List, [], ◌∷◌, map, Option, some, All, text_eq,
}
use device_access_opc_ua_bac.System.{System, ok}
use device_access_opc_ua_bac.System.Safe.{bind_ok}
use device_access_opc_ua_bac.Xml
use device_access_opc_ua_bac.Xml.{Result, logic_error, Branch, Document}
use device_access_opc_ua_bac.Catalogue.{RegisterInfo}
use device_access_opc_ua_bac.Catalogue.Filling.{Filling}
use device_access_opc_ua_bac.Cache.{catalogue_document}
use device_access_opc_ua_bac.Cache.Reading.{text_or, read_catalogue}
use device_access_opc_ua_bac.Cache.Tags.{nonempty}
use device_access_opc_ua_bac.Cache.Stored.{IsSavable}
use device_access_opc_ua_bac.Cache.RoundTrip.{IsFileOf, renamed, add_all, read_catalogue-saved}
use device_access_opc_ua_bac.Backend.{ConnectAnswer, connect}
use device_access_opc_ua_bac.Backend.Construction.{
  SaveAnswer, saved, leave, save_catalogue, save_if_named, connect_and_fill, after_reading,
  construct,
}

-- The registers of a catalogue as they come back from its file.
abbrev pub reloaded :
    (Text → Text)
    → (List RegisterInfo → RegisterInfo → List RegisterInfo)
    → List RegisterInfo
    → List RegisterInfo
reloaded register_path add_register rs = add_all add_register [] (map (renamed register_path) rs)

abbrev pub file_of :
    (Text → Text)
    → (Bool → Text)
    → (Document Branch → Document Branch)
    → List RegisterInfo
    → Option (Document Branch)
file_of register_path serialize written rs =
    some (written (catalogue_document register_path serialize rs))

module _ (register_path : Text → Text) (serialize : Bool → Text)
    (deserialize : Text → Result (Unit {0}))
    (modes_back : (b : Bool) → deserialize (text_or [] (nonempty (serialize b))) ≡ Xml.ok tt)
    (add_register : List RegisterInfo → RegisterInfo → List RegisterInfo)
    (written : Document Branch → Document Branch)
    (file_back : (d : Document Branch) → IsFileOf d (written d)) where
  connect_and_fill-saved :
      (cache_file address : Text) (ans : ConnectAnswer) (rs : List RegisterInfo)
      (old : Option (Document Branch)) (s t : System)
      → text_eq cache_file [] ≡ false
      → connect address ans s ≡ ok tt t
      → connect_and_fill register_path serialize deserialize add_register written cache_file address
          ans
          (Filling.filled rs)
          saved
          old
          s
        ≡ ok
            (record {
              catalogue = rs;
              is_filled = true;
              file = file_of register_path serialize written rs;
            })
            t
  unfolding connect_and_fill leave save_if_named save_catalogue
  connect_and_fill-saved cache_file address ans rs old s t named linked =
      bind_ok (connect address ans) _ s tt t linked ∙ rw named refl

  construct_named :
      (cache_file address : Text) (ans : ConnectAnswer) (filling : Filling) (storing : SaveAnswer)
      (file : Option (Document Branch)) (s : System)
      → text_eq cache_file [] ≡ false
      → construct register_path serialize deserialize add_register written cache_file address ans
          filling storing file s
        ≡ after_reading register_path serialize deserialize add_register written
            (read_catalogue deserialize add_register file)
            file
            (connect_and_fill register_path serialize deserialize add_register written cache_file
              address ans filling storing file)
            s
  unfolding construct
  construct_named cache_file address ans filling storing file s named = rw named refl

  -- A device with a cache file that cannot be read connects, fills its catalogue with one or more
  -- registers of one server and saves it. A device that is constructed with that file afterwards has the
  -- same registers, in their order and with the same fields, each under its register name; it does not
  -- connect, whatever the server would answer, and leaves the file and its own state as they are. Asked
  -- is that the connection is made, that the file is written, and that each register is regular, its
  -- numbers fit their types, and its name, its id and the server address are not empty; and that the XML
  -- library gives back the document that it wrote, and the library's access modes their names.
  pub construct-cached :
      (cache_file address server : Text) (r : RegisterInfo) (rs : List RegisterInfo)
      (first second : ConnectAnswer) (other : Filling) (storing : SaveAnswer)
      (file : Option (Document Branch)) (s t u : System)
      → text_eq cache_file [] ≡ false
      → read_catalogue deserialize add_register file ≡ Xml.throws logic_error
      → connect address first s ≡ ok tt t
      → server ≢ []
      → All (IsSavable register_path) (r ∷ rs)
      → All (λ x. x.server_address ≡ server) (r ∷ rs)
      → (construct register_path serialize deserialize add_register written cache_file address first
            (Filling.filled (r ∷ rs))
            saved
            file
            s
          ≡ ok
              (record {
                catalogue = r ∷ rs;
                is_filled = true;
                file = file_of register_path serialize written (r ∷ rs);
              })
              t)
        × (construct register_path serialize deserialize add_register written cache_file address
              second other storing
              (file_of register_path serialize written (r ∷ rs))
              u
            ≡ ok
                (record {
                  catalogue = reloaded register_path add_register (r ∷ rs);
                  is_filled = true;
                  file = file_of register_path serialize written (r ∷ rs);
                })
                u)
  unfolding after_reading
  construct-cached cache_file address server r rs first second other storing file s t u named unread
        linked h fit same =
      let back =
        read_catalogue-saved register_path serialize deserialize add_register modes_back server r rs
          (written (catalogue_document register_path serialize (r ∷ rs))) h fit same
          (file_back (catalogue_document register_path serialize (r ∷ rs))) in
      (
        construct_named cache_file address first (Filling.filled (r ∷ rs)) saved file s named
            ∙ rw unread
                (connect_and_fill-saved cache_file address first (r ∷ rs) file s t named linked),
        construct_named cache_file address second other storing
              (file_of register_path serialize written (r ∷ rs)) u named
            ∙ rw back refl,
      )
