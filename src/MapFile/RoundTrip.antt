-- ===== src/MapFile/RoundTrip.antt =====
-- A map file in the old style is read back as the entries that it was written from.
use device_access_opc_ua_bac.Prelude.{
  ℕ, ◌^◌, ◌%◌, ◌≡◌, refl, false, Text, ◌∷◌, [], List, ◌++◌, Option, none, some, arith, All, All-map,
  ◌<◌, map, ◌∙◌, ◌==◌, ap,
}
use device_access_opc_ua_bac.Prelude.Decimal.{to_decimal}
use device_access_opc_ua_bac.Prelude.Number
use device_access_opc_ua_bac.Prelude.Number.{
  stoul, is_digit, IsDigit, to_decimal_lem, stoul-to_decimal,
}
use device_access_opc_ua_bac.System.{NodeId, numeric, string}
use device_access_opc_ua_bac.MapFile.{read_ids, read_string}
use device_access_opc_ua_bac.MapFile.Legacy.{
  lines, is_separator, tokens, is_skipped, node_of, read_tokens, read_line, read_lines,
}
use device_access_opc_ua_bac.MapFile.Words.{
  IsPlain, IsWord, tokens-append, tokens_word, lines-append, to_decimal-IsWord,
}

-- The id of a node as the line has it, and a line.
pub data LineId : Type 0 where
  id_number : ℕ → LineId
  id_text : Text → LineId

pub record Line : Type 0 where
  pub new_name : Option Text
  pub id : LineId
  pub namespace_id : ℕ

abbrev pub print_id : LineId → Text
print_id (id_number n) = to_decimal n
print_id (id_text t) = t

abbrev pub print_ids : Line → Text
print_ids e = print_id e.id ++ (b' ' ∷ to_decimal e.namespace_id)

abbrev pub with_name : Option Text → Text → Text
with_name none s = s
with_name (some name) s = name ++ (b'\t' ∷ s)

abbrev pub print_line : Line → Text
print_line e = with_name e.new_name (print_ids e)

abbrev pub print_file : List Line → Text
print_file [] = []
print_file (e ∷ es) = print_line e ++ (b'\n' ∷ print_file es)

-- The node that a line stands for, below a root.
abbrev pub node_at : Text → LineId → ℕ → NodeId
node_at root (id_number n) ns = numeric ns n
node_at root (id_text t) ns = string ns (root ++ t)

abbrev pub entry_at : Text → Line → NodeId × Option Text
entry_at root e = (node_at root e.id e.namespace_id, e.new_name)

-- A text id is a word that does not begin with a number; numbers fit their types.
abbrev pub IsValidId : LineId → Type 0
IsValidId (id_number n) = n < 2 ^ 32
IsValidId (id_text t) = IsWord t × (stoul t ≡ Number.invalid_argument)

abbrev pub IsValidName : Option Text → Type 0
IsValidName none = Unit {0}
IsValidName (some name) = IsWord name

abbrev pub IsValid : Line → Type 0
IsValid e = IsValidName e.new_name × IsValidId e.id × (e.namespace_id < 2 ^ 16)

print_id-IsWord : (id : LineId) → IsValidId id → IsWord (print_id id)
print_id-IsWord (id_number n) h = to_decimal-IsWord n
print_id-IsWord (id_text t) h = h.0

ids_tokens :
    (e : Line)
    → IsValidId e.id
    → tokens (print_ids e) ≡ print_id e.id ∷ to_decimal e.namespace_id ∷ []
unfolding is_separator
ids_tokens e h =
    tokens-append (print_id e.id) b' ' _ (print_id-IsWord e.id h) refl
    ∙ ap (◌∷◌ (print_id e.id))
        (tokens_word (to_decimal e.namespace_id) (to_decimal-IsWord e.namespace_id))

read_ids_valid :
    (root : Text) (id : LineId) (ns : ℕ) (name : Option Text)
    → IsValidId id
    → ns < 2 ^ 16
    → node_of root (print_id id) name (read_ids (stoul (print_id id)) (stoul (to_decimal ns)))
      ≡ (node_at root id ns, name) ∷ []
unfolding node_of read_ids read_string
read_ids_valid root (id_number n) ns name h k =
    rw (stoul-to_decimal n (omega arith), stoul-to_decimal ns (omega arith))
      (let a : n % 2 ^ 32 ≡ n = omega arith in
        let b : ns % 2 ^ 16 ≡ ns = omega arith in rw (a, b) refl)
read_ids_valid root (id_text t) ns name h k =
    rw (h.1, stoul-to_decimal ns (omega arith))
      (let b : ns % 2 ^ 16 ≡ ns = omega arith in rw b refl)

is_skipped-append : (w rest : Text) → IsWord w → is_skipped (w ++ rest) ≡ false
unfolding is_skipped
is_skipped-append [] rest h = absurd h
is_skipped-append (c ∷ w) rest h = h.1

line_tokens :
    (root : Text) (name : Option Text) (e : Line)
    → IsValidName name
    → IsValidId e.id
    → e.namespace_id < 2 ^ 16
    → read_line root (with_name name (print_ids e)) ≡ (node_at root e.id e.namespace_id, name) ∷ []
unfolding read_line read_tokens is_separator
line_tokens root none e v h k =
    rw (is_skipped-append (print_id e.id) _ (print_id-IsWord e.id h), ids_tokens e h)
      (read_ids_valid root e.id e.namespace_id none h k)
line_tokens root (some name) e v h k =
    rw (is_skipped-append name _ v, tokens-append name b'\t' (print_ids e) v refl, ids_tokens e h)
      (read_ids_valid root e.id e.namespace_id (some name) h k)

abbrev NoBreak : Text → Type 0
NoBreak = All (λ c. (c == b'\n') ≡ false)

All-append {ℓ} : (P : ℕ → Type ℓ) (s t : Text) → All P s → All P t → All P (s ++ t)
All-append P [] t h k = k
All-append P (c ∷ s) t h k = (h.0, All-append P s t h.1 k)

word-NoBreak : (w : Text) → IsWord w → NoBreak w
word-NoBreak [] h = absurd h
word-NoBreak (c ∷ w) h = All-map IsPlain _ (λ d p. p.1) (c ∷ w) h.0

ids-NoBreak : (e : Line) → IsValidId e.id → NoBreak (print_ids e)
ids-NoBreak e h =
    All-append _ (print_id e.id) _ (word-NoBreak _ (print_id-IsWord e.id h))
      (refl, word-NoBreak _ (to_decimal-IsWord e.namespace_id))

print_line-NoBreak :
    (name : Option Text) (e : Line)
    → IsValidName name
    → IsValidId e.id
    → NoBreak (with_name name (print_ids e))
print_line-NoBreak none e v h = ids-NoBreak e h
print_line-NoBreak (some name) e v h =
    All-append _ name _ (word-NoBreak name v) (refl, ids-NoBreak e h)

-- The lines that are written for some entries are read back as just these entries, in their order,
-- with the name of the root in front of the text ids. Asked is that names and text ids are words,
-- that a text id does not begin with a number, and that the numbers fit their types.
pub read_lines-print_file :
    (root : Text) (es : List Line)
    → All IsValid es
    → read_lines root (lines (print_file es)) ≡ map (entry_at root) es
unfolding read_lines
read_lines-print_file root [] h = unfold lines in refl
read_lines-print_file root (e ∷ es) h =
    let (name, id, ns) = h.0 in
    rw
      (
        lines-append (print_line e) (print_file es) (print_line-NoBreak e.new_name e name id),
        line_tokens root e.new_name e name id ns,
      )
      (ap (◌∷◌ (entry_at root e)) (read_lines-print_file root es h.1))
