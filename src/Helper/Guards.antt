-- ===== src/Helper/Guards.antt =====
-- What an invocation of the helper can run and print (helper/lapcare_helper.py).
use lapcare.Common.{
  ◌≡◌, refl, String, Bool, true, false, Option, none, some, List, [], ◌∷◌, any, str_eq, arith, ap,
  sym, ◌∙◌, eq_iff, if◌then◌else◌,
}
use lapcare.Common.Text.{◌⧺◌}
use lapcare.Helper.{
  Host, Attempt, go, stop, check_node, match_name, device_node, smart_report, smart_report_of,
  command, main,
}

-- A block device that is there now, by its name.
pub record IsPresent (h : Host) (name : String) : Type 0 where
  pub listed : any (λ n. str_eq n name) h.block_names ≡ true
  pub block : h.is_block ("/dev/" ⧺ name) ≡ some true
  pub enumerated : h.block_error ≡ none

module _ (h : Host) where
  check_node-go :
      (name node found : String) (b : Option Bool)
      → check_node name node b ≡ go found
      → (b ≡ some true) × (found ≡ node)
  check_node-go name node found none e = cc
  check_node-go name node found (some false) e = cc
  check_node-go name node found (some true) e = (refl, cc)

  pub if_go :
      (b : Bool) (a : Attempt) (line found : String)
      → (if b then a else stop line) ≡ go found
      → (b ≡ true) × (a ≡ go found)
  if_go true a line found e = (refl, e)
  if_go false a line found e = cc

  match_name-go :
      (name node : String) (o : Option String)
      → match_name h name o ≡ go node
      → (o ≡ none)
        × (any (λ n. str_eq n name) h.block_names ≡ true)
        × (h.is_block ("/dev/" ⧺ name) ≡ some true)
        × (node ≡ "/dev/" ⧺ name)
  match_name-go name node (some strerror) e = cc
  match_name-go name node none e =
      let (listed, checked) = if_go _ _ _ node e in
      let (block, same) = check_node-go name ("/dev/" ⧺ name) node _ checked in
      (refl, listed, block, same)

  pub device_node-go :
      (name node : String)
      → device_node h name ≡ go node
      → IsPresent h name × (node ≡ "/dev/" ⧺ name)
  unfolding device_node
  device_node-go name node e =
      let (enumerated, listed, block, same) = match_name-go name node h.block_error e in
      (record { listed = listed; block = block; enumerated = enumerated }, same)

  smart_report_of-runs :
      (a : Attempt) (c : List String) (cs : List (List String))
      → (smart_report_of h a).1 ≡ c ∷ cs
      → (node : String) × (a ≡ go node) × (c ≡ command node) × (cs ≡ [])
  unfolding smart_report
  smart_report_of-runs (go node) c cs e = (node, refl, ground (arith, e), ground (arith, e))
  smart_report_of-runs (stop line) c cs e = cc

  verb_runs :
      (verb device : String) (c : List String) (cs : List (List String)) (b : Bool)
      → b ≡ str_eq verb "smart-report"
      → (if b
          then smart_report_of h (device_node h device)
          else (stop "lapcare-helper: unknown-verb", [])).1
        ≡ c ∷ cs
      → (verb ≡ "smart-report") × IsPresent h device × (c ≡ command ("/dev/" ⧺ device)) × (cs ≡ [])
  verb_runs verb device c cs true same e =
      let (node, found, ran, rest) = smart_report_of-runs (device_node h device) c cs e in
      let (present, at) = device_node-go device node found in
      ((eq_iff verb "smart-report").0 (sym same), present, ran ∙ ap command at, rest)
  verb_runs verb device c cs false same e = cc

  -- Whatever arguments arrive, the helper runs nothing, or one command: smartctl, on the node of a
  -- block device that the system lists now under the name it was given.
  pub main_runs :
      (argv : List String) (c : List String) (cs : List (List String))
      → (main h argv).1 ≡ c ∷ cs
      → (program : String) × (device : String) × (argv ≡ program ∷ "smart-report" ∷ device ∷ [])
        × IsPresent h device
        × (c ≡ command ("/dev/" ⧺ device))
        × (cs ≡ [])
  unfolding main
  main_runs [] c cs e = cc
  main_runs (a ∷ []) c cs e = cc
  main_runs (a ∷ b ∷ []) c cs e = cc
  main_runs (a ∷ b ∷ d ∷ x ∷ xs) c cs e = cc
  main_runs (program ∷ verb ∷ device ∷ []) c cs e =
      let (same, present, ran, rest) = verb_runs verb device c cs _ refl e in
      (program, device, ap (λ v. program ∷ v ∷ device ∷ []) same, present, ran, rest)
