-- ===== src/Connection/Credentials.antt =====
-- Which name and password reach the server: include/OPC-UA-Connection.h and `connect` of
-- src/OPC-UA-Backend.cc.
use device_access_opc_ua_bac.Prelude.{
  Bool, true, false, ◌&&◌, ◌≡◌, not, ◌||◌, refl, ap, sym, Text, List, Option, none, some,
  Bool-cases, inl, inr, if◌then◌else◌,
}
use device_access_opc_ua_bac.Xml.{Result, ok, bind-ok}
use device_access_opc_ua_bac.Parameters.{Options}
use device_access_opc_ua_bac.Connection.{
  OpenFile, ClientConfig, is_given, is_encrypted, token_of, trust_of, configure, Login, by_config,
  by_username, login_of,
}

-- The name and the password that the library sends: those of the call, or those of the token.
abbrev pub presented : ClientConfig → Login → Option (Text × Text)
presented c by_config = c.token
presented c (by_username name password) = some (name, password)

abbrev token_in : Result ClientConfig → Option (Text × Text)
token_in (ok c) = c.token
token_in _ = none

without_token :
    (x y : Bool) (name password : Text) (c : ClientConfig)
    → c.token ≡ none
    → presented c (if not x || not y then by_config else by_username name password)
      ≡ (if x && y then some (name, password) else none)
without_token true true name password c h = refl
without_token true false name password c h = h
without_token false y name password c h = h

-- With or without an encryption, wherever a configuration comes out, the server is given the name and
-- the password of the options where both of them are not empty, and none otherwise.
pub configure-presented {ℓ} :
    {D : Type ℓ} (fopen : Text → Option OpenFile) (opendir : Text → Option (List Text))
    (o : Options D) (c : ClientConfig)
    → configure fopen opendir o ≡ ok c
    → presented c (login_of o)
      ≡ (if is_given o.username && is_given o.password then some (o.username, o.password) else none)
unfolding configure login_of token_of
configure-presented fopen opendir o c h = elim (Bool-cases (is_encrypted o)) [
  | inl on ↦
      let (t, _, same) = bind-ok (trust_of fopen opendir o) _ c (rw on at h) in
      rw (on, ← ap token_in same) refl
  | inr off ↦
      let plain : c.token ≡ none = sym (ap token_in (rw off at h)) in
      rw off
        (without_token (is_given o.username) (is_given o.password) o.username o.password c plain)
]
