-- ===== src/Chart/Main/Variant.antt =====
-- The values of an environment: app.yaml first, the variant's file over it.
use learning_crossplane_e2e.Prelude.{
  ◌⊕◌, sym, subst, String, Bool, true, false, Option, some, List, [], ◌≡◌, refl, ap, ◌⊎◌, inl, inr,
  is_empty, if◌then◌else◌, All,
}
use learning_crossplane_e2e.Chart.Props.{AppProps}
use learning_crossplane_e2e.Chart.App.{Construct, new_app}
use learning_crossplane_e2e.Chart.App.Complete.{IsComplete}
use learning_crossplane_e2e.Chart.App.Ids.{distinct, ids}
use learning_crossplane_e2e.Chart.Main.{
  Library, Loaded, loaded, fatal, zero_app_props, printed, decoded, set_values, variant_file,
  load_values, charted, new_cncf_demo_chart,
}

-- A chart that can be synthesized.
pub record IsSound (id : String) (result : Option (List Construct) ⊎ String) : Type 0 where
  pub constructs : List Construct
  pub made : result ≡ inl (some constructs)
  pub complete : All IsComplete constructs
  pub apart : distinct (ids constructs) ≡ true

-- Go's yaml decodes an empty document to no change.
abbrev pub KeepsOnEmpty : Library → Type 0
KeepsOnEmpty library = (app : AppProps) → library.unmarshal "" app ≡ inl app

-- What a file holds, where its reading failed too.
abbrev pub content : Library → String → String
content library file = (library.read_file file).0

-- The file of the environment.
abbrev pub file_of_environment : Library → String
file_of_environment library = "app-" ⊕ (library.getenv "ENVIRONMENT" ⊕ ".yaml")

-- What the decoder makes of app.yaml, and of the file of the environment on top of it.
pub data Decodes (library : Library) : AppProps → Type 0 where
  alone :
      {app : AppProps}
      → is_empty (library.getenv "ENVIRONMENT") ≡ true
      → library.unmarshal (content library "app.yaml") zero_app_props ≡ inl app
      → Decodes library app
  varied :
      {base app : AppProps}
      → is_empty (library.getenv "ENVIRONMENT") ≡ false
      → library.unmarshal (content library "app.yaml") zero_app_props ≡ inl base
      → library.unmarshal (content library (file_of_environment library)) base ≡ inl app
      → Decodes library app

-- The error of the decoder at the first of the two files that it refuses.
pub data Undecodable (library : Library) : String → Type 0 where
  in_base :
      {message : String}
      → library.unmarshal (content library "app.yaml") zero_app_props ≡ inr message
      → Undecodable library message
  in_variant :
      {base : AppProps} {message : String}
      → is_empty (library.getenv "ENVIRONMENT") ≡ false
      → library.unmarshal (content library "app.yaml") zero_app_props ≡ inl base
      → library.unmarshal (content library (file_of_environment library)) base ≡ inr message
      → Undecodable library message

-- What load_values gives: decoded values, or the message of a decoding error.
pub data Loads (library : Library) : Loaded → Type 0 where
  decodes :
      {app : AppProps} {log : List String} → Decodes library app → Loads library (loaded app log)
  refuses :
      {message : String}
      → Undecodable library message
      → Loads library (fatal ("Unmarshal: " ⊕ message))

module _ (library : Library) where
  set_values-decoded :
      (file : String) (app : AppProps) (log : List String) (r : AppProps ⊎ String)
      → library.unmarshal (content library file) app ≡ r
      → set_values library file (loaded app log)
        ≡ decoded r (printed (library.read_file file).1 log)
  unfolding set_values
  set_values-decoded file app log r e =
      ap (λ r. decoded r (printed (library.read_file file).1 log)) e

  varied-Loads :
      (base : AppProps) (log : List String) (r : AppProps ⊎ String)
      → is_empty (library.getenv "ENVIRONMENT") ≡ false
      → library.unmarshal (content library "app.yaml") zero_app_props ≡ inl base
      → library.unmarshal (content library (file_of_environment library)) base ≡ r
      → Loads library (set_values library (file_of_environment library) (loaded base log))
  varied-Loads base log (inl app) given first second =
      subst (Loads library) (sym (set_values-decoded _ base log (inl app) second))
        (decodes (varied given first second))
  varied-Loads base log (inr message) given first second =
      subst (Loads library) (sym (set_values-decoded _ base log (inr message) second))
        (refuses (in_variant given first second))

  base-Loads :
      (r : AppProps ⊎ String) (alone_read : Bool)
      → is_empty (library.getenv "ENVIRONMENT") ≡ alone_read
      → library.unmarshal (content library "app.yaml") zero_app_props ≡ r
      → Loads library (
          if alone_read
          then decoded r (printed (library.read_file "app.yaml").1 [])
          else set_values library
              (file_of_environment library)
              (decoded r (printed (library.read_file "app.yaml").1 [])))
  unfolding set_values
  base-Loads (inl app) true e first = decodes (alone e first)
  base-Loads (inl app) false e first = varied-Loads app _ _ e first refl
  base-Loads (inr message) true e first = refuses (in_base first)
  base-Loads (inr message) false e first = refuses (in_base first)

  pub load_values-Loads : Loads library (load_values library)
  unfolding load_values set_values
  load_values-Loads = base-Loads _ _ refl refl

-- The program ends with a decoding error, or charts the values that the files decode to.
pub data Charts (library : Library) (id : String) : Option (List Construct) ⊎ String → Type 0 where
  charts :
      {app : AppProps} {result : Option (List Construct) ⊎ String}
      → Decodes library app
      → result ≡ inl (new_app (library.node_id id) (some id) app)
      → IsSound id result
      → Charts library id result
  stops :
      {message : String}
      → Undecodable library message
      → Charts library id (inr ("Unmarshal: " ⊕ message))

-- The chart of the values in app.yaml alone.
abbrev pub base_chart : Library → String → Option (List Construct) ⊎ String
base_chart library id =
    charted library id (set_values library "app.yaml" (loaded zero_app_props []))

missing_file :
    (library : Library) (id file : String) (message : String) (values : Loaded)
    → KeepsOnEmpty library
    → library.read_file file ≡ ("", some message)
    → charted library id (set_values library file values) ≡ charted library id values
unfolding set_values
missing_file library id file message (fatal m) keeps missing = refl
missing_file library id file message (loaded app log) keeps missing = rw (missing, keeps app)

-- Where nothing of the variant's file can be read, and an empty document changes nothing, the result
-- is the one of app.yaml alone.
pub new_cncf_demo_chart_without_variant :
    (library : Library) (id message : String)
    → KeepsOnEmpty library
    → library.read_file (variant_file library (library.getenv "ENVIRONMENT")) ≡ ("", some message)
    → new_cncf_demo_chart library id ≡ base_chart library id
unfolding new_cncf_demo_chart load_values
new_cncf_demo_chart_without_variant library id message keeps missing =
    without (is_empty (library.getenv "ENVIRONMENT"))
  where
    base : Loaded
    base = set_values library "app.yaml" (loaded zero_app_props [])

    with_variant : Loaded
    with_variant = set_values library (variant_file library (library.getenv "ENVIRONMENT")) base

    without :
        (b : Bool) → charted library id (if b then base else with_variant) ≡ charted library id base
    without true = refl
    without false = missing_file library id _ message base keeps missing
