-- ===== src/Parameters.antt =====
-- `createInstance` of src/OPC-UA-Backend.cc: the parameters of a device descriptor. `std::stod` is
-- code of the standard library and a parameter.
pub mod Root
use device_access_opc_ua_bac.Prelude.{
  ℕ, Bool, true, false, ◌&&◌, ◌||◌, ◌-◌, ◌%◌, ◌^◌, Text, codes, List, [], ◌∷◌, ◌++◌, map, Option,
  none, some, leb, ◌==◌, if◌then◌else◌, text_eq,
}
use device_access_opc_ua_bac.Prelude.Number
use device_access_opc_ua_bac.Prelude.Number.{Parsed, stoul}
use device_access_opc_ua_bac.Xml.{Result, ok, throws, logic_error, runtime_error, ◌>>=◌}
use device_access_opc_ua_bac.Cache.Reading.{need_number}

-- `std::map::operator[]`: a parameter that is not there is empty.
unfoldable pub parameter : Text → List (Text × Text) → Text
parameter name [] = []
parameter name ((n, v) ∷ rest) = if text_eq n name then v else parameter name rest

unfoldable pub to_upper : ℕ → ℕ
to_upper c = if leb b'a' c && leb c b'z' then c - 32 else c

unfoldable pub is_trusting : Text → Bool
unfolding to_upper
is_trusting t =
    let u : Text = map to_upper t in
    text_eq u (codes "1") || text_eq u (codes "TRUE") || text_eq u (codes "YES")

pub data LogLevel : Type 0 where
  trace debug info warning error_level fatal : LogLevel

-- A name that is not known is logged, and the level stays `info`.
unfoldable pub log_level : Text → LogLevel
unfolding to_upper
log_level t =
    let u : Text = map to_upper t in
    if text_eq u (codes "DEBUG")
    then debug
    else if text_eq u (codes "INFO")
    then info
    else if text_eq u (codes "WARNING")
    then warning
    else if text_eq u (codes "TRACE")
    then trace
    else if text_eq u (codes "FATAL")
    then fatal
    else if text_eq u (codes "ERROR")
    then error_level
    else info

-- `find_first_of(':')` with the texts before and after it.
unfoldable pub split_at_colon : Text → Option (Text × Text)
split_at_colon [] = none
split_at_colon (c ∷ s) =
    let rest : Option (Text × Text) = split_at_colon s in
    if c == b':'
    then some ([], s)
    else (elim rest [ none ↦ none | some (before, after) ↦ some (c ∷ before, after) ])

-- `rootNS` and `rootName`; `none` is the variable that was not set.
abbrev pub Root : Type 0
Root = Option ℕ × Text

-- `catch(...)`: every failure of `std::stoul` becomes a `runtime_error`.
unfoldable pub root_of : Parsed → Text → Result Root
root_of (Number.number ns) name = ok (some ns, name)
root_of Number.invalid_argument name = throws runtime_error
root_of Number.out_of_range name = throws runtime_error

unfoldable pub parse_root : Text → Result Root
unfolding split_at_colon root_of
parse_root t = elim (split_at_colon t) [
  | none ↦ throws runtime_error
  | some (ns, name) ↦ root_of (stoul ns) name
]

unfoldable pub read_root : Text → Text → Result Root
unfolding parse_root
read_root mapfile root =
    if text_eq mapfile []
    then (if text_eq root [] then ok (none, []) else parse_root root)
    else ok (none, root)

unfoldable pub read_timeout : Text → Result ℕ
unfolding need_number
read_timeout t = if text_eq t [] then ok 5000 else (do n ← need_number (stoul t); ok (n % 2 ^ 32))

-- The arguments of the constructor of `OpcUABackend`.
pub record Options {ℓ} (D : Type ℓ) : Type ℓ where
  pub server_address : Text
  pub username : Text
  pub password : Text
  pub mapfile : Text
  pub publishing_interval : D
  pub root : Root
  pub connection_timeout : ℕ
  pub level : LogLevel
  pub certificate : Text
  pub private_key : Text
  pub trust_any : Bool
  pub trust_list_folder : Text
  pub revocation_list_folder : Text
  pub cache_file : Text

-- What the constructor is given.
abbrev pub options {ℓ} : {D : Type ℓ} → Text → List (Text × Text) → D → Root → ℕ → Options D
options address parameters interval root timeout = record {
  server_address = codes "opc.tcp://" ++ (address ++ (b':' ∷ parameter (codes "port") parameters));
  username = parameter (codes "username") parameters;
  password = parameter (codes "password") parameters;
  mapfile = parameter (codes "map") parameters;
  publishing_interval = interval;
  root = root;
  connection_timeout = timeout;
  level = log_level (parameter (codes "logLevel") parameters);
  certificate = parameter (codes "certificate") parameters;
  private_key = parameter (codes "privateKey") parameters;
  trust_any = is_trusting (parameter (codes "trustAny") parameters);
  trust_list_folder = parameter (codes "trustListFolder") parameters;
  revocation_list_folder = parameter (codes "revocationListFolder") parameters;
  cache_file = parameter (codes "cacheFile") parameters;
}

module _ {ℓ} {D : Type ℓ} (stod : Text → Result D) (default_interval : D) where
  unfoldable pub read_interval : Text → Result D
  read_interval t = if text_eq t [] then ok default_interval else stod t

  unfoldable pub create_instance : Text → List (Text × Text) → Result (Options D)
  unfolding parameter read_interval read_root read_timeout is_trusting log_level
  create_instance address parameters =
      if text_eq (parameter (codes "port") parameters) [] then throws logic_error else (do
        interval ← read_interval (parameter (codes "publishingInterval") parameters)
        root ←
            read_root (parameter (codes "map") parameters) (parameter (codes "rootNode") parameters)
        timeout ← read_timeout (parameter (codes "connectionTimeout") parameters)
        ok (options address parameters interval root timeout))
