-- ===== src/Dsl/Files.antt =====
-- Workflow documents in files and texts: `parse_file`, `parse_yaml` and `parse_json` of
-- src/flowmesh/dsl/__init__.py. The YAML library and the JSON decoder are parameters, of which the first
-- may be missing; none stands for the exception that they raise on a text that they do not take.
use fuzzy_octo_train.Prelude.{
  string_eq, ℕ, String, true, ◌||◌, Option, none, some, ◌≡◌, ◌==◌, ◌⊎◌, inl, inr, refl, sym, ◌∙◌,
  arith, if◌then◌else◌, Bool-cases, Result, ok, err, ◌>>=◌, unwrap, Error, value_error,
  import_error, file_not_found_error, >>=-eq-ok,
}
use fuzzy_octo_train.Models.{Workflow}
use fuzzy_octo_train.Dsl.{Registry, Document, parse_dict}

-- A path: its suffix, and the text of the file, if there is one.
pub record SourceFile : Type 0 where
  pub suffix : String
  pub content : Option String

module _ {V : Type 0} (registry : Registry V) (nothing : V) (fresh : ℕ → String) (id : String)
    (now : ℕ) where
  unfoldable pub parse_json :
      (loads : String → Option (Document V)) (json_content : String) → Result (Workflow V)
  parse_json loads json_content = do
    document ← unwrap (value_error "Invalid JSON") (loads json_content)
    parse_dict registry nothing document fresh id now

  unfoldable pub parse_yaml :
      (safe_load : Option (String → Option (Document V))) (yaml_content : String)
      → Result (Workflow V)
  parse_yaml none yaml_content = err import_error
  parse_yaml (some safe_load) yaml_content = do
    document ← unwrap (value_error "Invalid YAML") (safe_load yaml_content)
    parse_dict registry nothing document fresh id now

  unfoldable pub parse_file :
      (loads : String → Option (Document V)) (safe_load : Option (String → Option (Document V)))
      → SourceFile
      → Result (Workflow V)
  unfolding parse_json parse_yaml
  parse_file loads safe_load path = unwrap file_not_found_error path.content >>= λ content.
      if path.suffix == ".yaml" || path.suffix == ".yml"
      then parse_yaml safe_load content
      else if path.suffix == ".json"
      then parse_json loads content
      else err (value_error "Unsupported file format")

  -- The text of a file has been read, by the decoder of its suffix, as the document.
  abbrev pub IsRead :
      (loads : String → Option (Document V)) (safe_load : Option (String → Option (Document V)))
      → (suffix content : String) → Document V
      → Type 0
  IsRead loads safe_load suffix content document =
      (((suffix == ".yaml" || suffix == ".yml") ≡ true)
        × (decode : String → Option (Document V)) × (safe_load ≡ some decode)
        × (decode content ≡ some document))
      ⊎ (((suffix == ".json") ≡ true) × (loads content ≡ some document))

  unwrap-ok :
      {A : Type 0} (e : Error) (found : Option A) {a : A} → unwrap e found ≡ ok a → found ≡ some a
  unwrap-ok e none h = absurd (cc)
  unwrap-ok e (some a) h = cc

  parse_yaml-ok :
      (safe_load : Option (String → Option (Document V))) (content : String) {w : Workflow V}
      → parse_yaml safe_load content ≡ ok w
      → (document : Document V) × (decode : String → Option (Document V)) × (safe_load
          ≡ some decode)
        × (decode content ≡ some document)
        × (parse_dict registry nothing document fresh id now ≡ ok w)
  unfolding parse_yaml
  parse_yaml-ok none content e = absurd (cc)
  parse_yaml-ok (some decode) content e =
      let (document, read, parsed) =
        >>=-eq-ok (unwrap (value_error "Invalid YAML") (decode content))
          (λ document. parse_dict registry nothing document fresh id now) e in
      (document, decode, refl, unwrap-ok (value_error "Invalid YAML") (decode content) read, parsed)

  parse_json-ok :
      (loads : String → Option (Document V)) (content : String) {w : Workflow V}
      → parse_json loads content ≡ ok w
      → (document : Document V) × (loads content ≡ some document)
        × (parse_dict registry nothing document fresh id now ≡ ok w)
  unfolding parse_json
  parse_json-ok loads content e =
      let (document, read, parsed) =
        >>=-eq-ok (unwrap (value_error "Invalid JSON") (loads content))
          (λ document. parse_dict registry nothing document fresh id now) e in
      (document, unwrap-ok (value_error "Invalid JSON") (loads content) read, parsed)

  parse_file-suffix :
      (loads : String → Option (Document V)) (safe_load : Option (String → Option (Document V)))
      (suffix content : String) {w : Workflow V}
      → (if suffix == ".yaml" || suffix == ".yml"
          then parse_yaml safe_load content
          else if suffix == ".json"
          then parse_json loads content
          else err (value_error "Unsupported file format"))
        ≡ ok w
      → (document : Document V) × IsRead loads safe_load suffix content document
        × (parse_dict registry nothing document fresh id now ≡ ok w)
  parse_file-suffix loads safe_load suffix content {w} e =
      elim (Bool-cases (suffix == ".yaml" || suffix == ".yml")) [
        | inl yaml ↦
            let (document, decode, there, read, parsed) =
              parse_yaml-ok safe_load content (sym (rw yaml refl) ∙ e) in
            (document, inl (yaml, decode, there, read), parsed)
        | inr other ↦ elim (Bool-cases (suffix == ".json")) [
          | inl json ↦
              let (document, read, parsed) =
                parse_json-ok loads content (sym (rw (other, json) refl) ∙ e) in
              (document, inr (json, read), parsed)
          | inr neither ↦ absurd (ground (arith, other, neither, e))
        ]
      ]

  -- A workflow comes only from a file that is there, with a suffix that the parser knows, and a text that
  -- the decoder of this suffix takes; it is what the document in the text is parsed to.
  pub parse_file-IsRead :
      (loads : String → Option (Document V)) (safe_load : Option (String → Option (Document V)))
      (path : SourceFile) {w : Workflow V}
      → parse_file loads safe_load path ≡ ok w
      → (content : String) × (document : Document V) × (path.content ≡ some content)
        × IsRead loads safe_load path.suffix content document
        × (parse_dict registry nothing document fresh id now ≡ ok w)
  unfolding parse_file
  parse_file-IsRead loads safe_load path e =
      let (content, there, chosen) =
        >>=-eq-ok (unwrap file_not_found_error path.content)
          (λ content.
            if path.suffix == ".yaml" || path.suffix == ".yml"
            then parse_yaml safe_load content
            else if path.suffix == ".json"
            then parse_json loads content
            else err (value_error "Unsupported file format"))
          e in
      let (document, read, parsed) = parse_file-suffix loads safe_load path.suffix content chosen in
      (content, document, unwrap-ok file_not_found_error path.content there, read, parsed)
