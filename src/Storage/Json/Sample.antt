-- ===== src/Storage/Json/Sample.antt =====
-- A concrete `JsonLib` for runs.
use diginext.Base.{
  eqb, ℕ, ◌≡◌, refl, Bool, true, false, inl, inr, Option, none, some, Option-cases, String, List,
  [], ◌∷◌, ◌++◌, codes, if◌then◌else◌, arith,
}
use diginext.Storage.Key
use diginext.Storage.Value
use diginext.Storage.Json.{Members, JsonLib}

-- Objects of `request`, `key` and `value`. A text that starts with `r` reads the key "k", `w`
-- followed by a text writes that text there, `q` lacks the key.
pub data Doc : Type 0 where
  doc : Option (List ℕ) → Option (List ℕ) → Option (List ℕ) → Doc

abbrev pub member : Doc → String → Option (List ℕ)
member (doc r k v) name =
    if eqb (codes name) (codes Key.request)
    then r
    else if eqb (codes name) (codes Key.key)
    then k
    else if eqb (codes name) (codes Key.value)
    then v
    else none

abbrev pub has : Doc → String → Bool
has d name = elim (member d name) [ some v ↦ true | none ↦ false ]

abbrev parse_doc : List ℕ → Option Doc
parse_doc [] = none
parse_doc (c ∷ text) =
    if eqb (c ∷ []) (codes "r")
    then some (doc (some Value.request_read) (some (codes "k")) none)
    else if eqb (c ∷ []) (codes "w")
    then some (doc (some Value.request_write) (some (codes "k")) (some text))
    else if eqb (c ∷ []) (codes "q")
    then some (doc (some Value.request_read) none none)
    else none

abbrev dump_doc : Members → List ℕ
dump_doc [] = []
dump_doc ((name, text) ∷ ms) = codes name ++ (58 ∷ text ++ (59 ∷ dump_doc ms))

pub has_missing : (d : Doc) (name : String) → has d name ≡ false → member d name ≡ none
has_missing d name e = elim (Option-cases (member d name)) [
  | inl p ↦ p
  | inr (v, p) ↦ absurd (ground (arith, e, p))
]

abbrev pub lib : JsonLib
lib = record {
  Json = Doc;
  parse = parse_doc;
  contains = has;
  get_string = member;
  dump = λ m. some (dump_doc m);
  IsUtf8 = λ v. Unit {0};
  get_string_missing = has_missing;
  get_string_utf8 = λ text j k v e f. tt;
  ascii_utf8 = λ v h. tt;
  dump_utf8 = λ m h. (dump_doc m, refl);
}
