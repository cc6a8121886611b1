-- ===== src/Ise/Probe/Notes.antt =====
-- ise.go: what the report of `ProbeDeployment` is to say of the answers, and what its first part does.
use ise2ise.Base.{◌≡◌, refl, String, Bool, true, false, [], ◌∷◌, ◌==◌, ◌∙◌}
use ise2ise.Base.{any, ap, not, ◌&&◌, ◌||◌, arith}
use ise2ise.Message.{Message, lit}
use ise2ise.Ise.Errors.{IseError, api, failed, within, as_api, Result, ok, err}
use ise2ise.Ise.Decode.{Body}
use ise2ise.Ise.Probe.{Probe, is_some, version_of, http_answered, first_look}

abbrev pub is_ok : {A : Type 0} → Result A → Bool
is_ok (ok a) = true
is_ok (err e) = false

-- An answer of the node, behind whatever context.
unfoldable pub is_answer : IseError → Bool
is_answer (api e) = true
is_answer (failed m) = false
is_answer (within m e) = is_answer e

-- The node has answered, be it with a refusal.
abbrev pub answered : {A : Type 0} → Result A → Bool
answered (ok a) = true
answered (err e) = is_answer e

abbrev pub starts_with : String → Message → Bool
starts_with s (lit t ∷ ps) = t == s
starts_with s _ = false

-- One of the notes starts with the text.
abbrev pub has_note : String → Probe → Bool
has_note s p = any (starts_with s) p.notes

abbrev pub no_ers : String
no_ers = "ERS API (port 9060) unavailable: "

abbrev pub no_open_api : String
no_open_api = "OpenAPI (port 443) unavailable: "

abbrev pub no_answer : String
no_answer =
    "Neither API answered at all. Check the hostname, that the node is up, and that ports 443 and 9060 are reachable from here."

abbrev pub odd_version : String
odd_version = "ERS answered but did not report a version in the expected shape."

-- What the report says of the answers to the request for the version and to the one of the OpenAPI: which
-- API is there, whether the node is, the note that goes with each that is not, and that version and nodes
-- come from ERS alone.
pub record IsExplained (v probed : Result Body) (p : Probe) : Type 0 where
  pub has_ers : p.ers ≡ is_ok v
  pub has_open_api : p.open_api ≡ is_ok probed
  pub reached : p.reachable ≡ (answered v || answered probed)
  pub ers_noted : has_note no_ers p ≡ not p.ers
  pub open_api_noted : has_note no_open_api p ≡ not p.open_api
  pub unreached_noted : has_note no_answer p ≡ not p.reachable
  pub version_noted : has_note odd_version p ≡ (p.ers && p.version == "")
  pub no_version : p.ers ≡ false → p.version ≡ ""
  pub no_nodes : p.ers ≡ false → p.nodes ≡ []

-- Before the nodes are read: the last two notes are not there yet.
pub record IsLooked (v probed : Result Body) (p : Probe) : Type 0 where
  pub ers_seen : p.ers ≡ is_ok v
  pub open_api_seen : p.open_api ≡ is_ok probed
  pub seen : p.reachable ≡ (answered v || answered probed)
  pub ers_told : has_note no_ers p ≡ not p.ers
  pub open_api_told : has_note no_open_api p ≡ not p.open_api
  pub no_answer_untold : has_note no_answer p ≡ false
  pub version_untold : has_note odd_version p ≡ false
  pub unversioned : p.ers ≡ false → p.version ≡ ""
  pub nodeless : p.ers ≡ false → p.nodes ≡ []

is_answer_lem : (e : IseError) → is_some (as_api e) ≡ is_answer e
unfolding as_api is_answer
is_answer_lem (api e) = refl
is_answer_lem (failed m) = refl
is_answer_lem (within m e) = is_answer_lem e

pub first_look-IsLooked :
    (host : String) (v probed : Result Body)
    → IsLooked v probed (first_look host (version_of v) probed)
unfolding first_look http_answered
first_look-IsLooked host (ok b) (ok a) = record {
  ers_seen = refl;
  open_api_seen = refl;
  seen = refl;
  ers_told = refl;
  open_api_told = refl;
  no_answer_untold = refl;
  version_untold = refl;
  unversioned = λ h. absurd (cc h);
  nodeless = λ h. refl;
}
first_look-IsLooked host (ok b) (err e) = record {
  ers_seen = refl;
  open_api_seen = refl;
  seen = refl;
  ers_told = refl;
  open_api_told = refl;
  no_answer_untold = refl;
  version_untold = refl;
  unversioned = λ h. absurd (cc h);
  nodeless = λ h. refl;
}
first_look-IsLooked host (err e) (ok a) = record {
  ers_seen = refl;
  open_api_seen = refl;
  seen = ground (arith, is_answer_lem e);
  ers_told = refl;
  open_api_told = refl;
  no_answer_untold = refl;
  version_untold = refl;
  unversioned = λ h. refl;
  nodeless = λ h. refl;
}
first_look-IsLooked host (err e) (err e') = record {
  ers_seen = refl;
  open_api_seen = refl;
  seen =
      ap (λ b. b || is_some (as_api e')) (is_answer_lem e)
      ∙ ap (is_answer e ||◌) (is_answer_lem e');
  ers_told = refl;
  open_api_told = refl;
  no_answer_untold = refl;
  version_untold = refl;
  unversioned = λ h. refl;
  nodeless = λ h. refl;
}
