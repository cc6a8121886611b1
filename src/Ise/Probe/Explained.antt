-- ===== src/Ise/Probe/Explained.antt =====
-- ise.go: what the report of `ProbeDeployment` says, whatever the deployment answers.
use ise2ise.Base.{◌≡◌, refl, String, Bool, true, false, none, List, [], ◌∷◌, ◌++◌, ◌==◌, ◌∙◌}
use ise2ise.Base.{any, sym, subst, ap, not, ◌&&◌, ◌||◌, arith, if◌then◌else◌}
use ise2ise.Message.{Message, said}
use ise2ise.Prog.{ret, ◌>>=◌, value_against}
use ise2ise.Prog.Returns.{value_against-bind}
use ise2ise.Request.{Request, read, ers, open_api, url_at}
use ise2ise.Ise.Errors.{Result, ok, err}
use ise2ise.Ise.Decode.{Body, Stub}
use ise2ise.Ise.Paging.{ers_list}
use ise2ise.Ise.Probe.{
  Probe, version_of, with_nodes, with_version_note, ise_version, first_look, finish,
  probe_deployment,
}
use ise2ise.Ise.Probe.Notes.{
  is_ok, answered, starts_with, has_note, no_ers, no_open_api, no_answer, odd_version, IsExplained,
  IsLooked, first_look-IsLooked,
}

-- One note more, behind the others.
any-more :
    (s : String) (ns : List Message) (m : Message)
    → any (starts_with s) (ns ++ (m ∷ [])) ≡ (any (starts_with s) ns || starts_with s m)
any-more s [] m = ground arith
any-more s (n ∷ ns) m = ground (arith, any-more s ns m)

abbrev with_note : Probe → Message → Probe
with_note p m = record p { notes = p.notes ++ (m ∷ []) }

-- A note with another start changes nothing for the start.
unlike :
    (s : String) (p : Probe) (m : Message) {b : Bool}
    → starts_with s m ≡ false
    → has_note s p ≡ b
    → has_note s (with_note p m) ≡ b
unlike s p m {b} e h = any-more s p.notes m ∙ ground (arith, e, h)

alike :
    (s : String) (p : Probe) (m : Message)
    → starts_with s m ≡ true
    → has_note s (with_note p m) ≡ true
alike s p m e = any-more s p.notes m ∙ ground (arith, e)

module _ {v probed : Result Body} where
  -- Where ERS is there, the nodes and the note about them make no difference.
  with_nodes-IsLooked :
      (p : Probe) (r : Result (List Stub))
      → p.ers ≡ true
      → IsLooked v probed p
      → IsLooked v probed (with_nodes p r)
  with_nodes-IsLooked p (ok stubs) there h = record {
    ers_seen = h.ers_seen;
    open_api_seen = h.open_api_seen;
    seen = h.seen;
    ers_told = h.ers_told;
    open_api_told = h.open_api_told;
    no_answer_untold = h.no_answer_untold;
    version_untold = h.version_untold;
    unversioned = h.unversioned;
    nodeless = λ gone. absurd (cc (there, gone));
  }
  with_nodes-IsLooked p (err e) there h = record {
    ers_seen = h.ers_seen;
    open_api_seen = h.open_api_seen;
    seen = h.seen;
    ers_told = unlike no_ers p _ refl h.ers_told;
    open_api_told = unlike no_open_api p _ refl h.open_api_told;
    no_answer_untold = unlike no_answer p _ refl h.no_answer_untold;
    version_untold = unlike odd_version p _ refl h.version_untold;
    unversioned = h.unversioned;
    nodeless = h.nodeless;
  }

  looked-IsExplained :
      (p : Probe)
      → IsLooked v probed p
      → p.reachable ≡ true
      → (p.ers && p.version == "") ≡ false
      → IsExplained v probed p
  looked-IsExplained p h there versioned = record {
    has_ers = h.ers_seen;
    has_open_api = h.open_api_seen;
    reached = h.seen;
    ers_noted = h.ers_told;
    open_api_noted = h.open_api_told;
    unreached_noted = h.no_answer_untold ∙ ap not (sym there);
    version_noted = h.version_untold ∙ sym versioned;
    no_version = h.unversioned;
    no_nodes = h.nodeless;
  }

  odd_version-IsExplained :
      (p : Probe)
      → IsLooked v probed p
      → p.reachable ≡ true
      → (p.ers && p.version == "") ≡ true
      → IsExplained v probed (with_note p (said odd_version))
  odd_version-IsExplained p h there unset = record {
    has_ers = h.ers_seen;
    has_open_api = h.open_api_seen;
    reached = h.seen;
    ers_noted = unlike no_ers p _ refl h.ers_told;
    open_api_noted = unlike no_open_api p _ refl h.open_api_told;
    unreached_noted = unlike no_answer p _ refl (h.no_answer_untold ∙ ap not (sym there));
    version_noted = alike odd_version p _ refl ∙ sym unset;
    no_version = h.unversioned;
    no_nodes = h.nodeless;
  }

  unreachable-IsExplained :
      (p : Probe)
      → IsLooked v probed p
      → p.reachable ≡ false
      → p.ers ≡ false
      → IsExplained v probed (with_note p (said no_answer))
  unreachable-IsExplained p h gone none_there = record {
    has_ers = h.ers_seen;
    has_open_api = h.open_api_seen;
    reached = h.seen;
    ers_noted = unlike no_ers p _ refl h.ers_told;
    open_api_noted = unlike no_open_api p _ refl h.open_api_told;
    unreached_noted = alike no_answer p _ refl ∙ ap not (sym gone);
    version_noted =
        unlike odd_version p _ refl h.version_untold
        ∙ ap (λ b. b && p.version == "") (sym none_there);
    no_version = h.unversioned;
    no_nodes = h.nodeless;
  }

  with_version_note-IsExplained :
      (p : Probe)
      → IsLooked v probed p
      → p.reachable ≡ true
      → p.ers ≡ true
      → IsExplained v probed (with_version_note p)
  with_version_note-IsExplained p h there has_ers = of_test (p.version == "") refl
    where
      of_test :
          (b : Bool)
          → (p.version == "") ≡ b
          → IsExplained v probed (if b then with_note p (said odd_version) else p)
      of_test true unset = odd_version-IsExplained p h there (ground (arith, has_ers, unset))
      of_test false set_there = looked-IsExplained p h there (ground (arith, set_there))

  -- An API that is there has answered.
  ers_reached : (p : Probe) → IsLooked v probed p → p.reachable ≡ false → p.ers ≡ false
  ers_reached p h gone = of_answers v probed (sym h.seen ∙ gone) h.ers_seen
    where
      of_answers :
          (v' probed' : Result Body)
          → (answered v' || answered probed') ≡ false
          → p.ers ≡ is_ok v'
          → p.ers ≡ false
      of_answers (ok b) probed' e seen = absurd (cc e)
      of_answers (err f) probed' e seen = seen

  of_nodes-IsExplained :
      (p : Probe) (stubs : Result (List Stub))
      → IsLooked v probed p
      → p.reachable ≡ true
      → p.ers ≡ true
      → IsExplained v probed (with_version_note (with_nodes p stubs))
  of_nodes-IsExplained p (ok stubs) h there has_ers =
      with_version_note-IsExplained (with_nodes p (ok stubs))
        (with_nodes-IsLooked p (ok stubs) has_ers h) there has_ers
  of_nodes-IsExplained p (err e) h there has_ers =
      with_version_note-IsExplained (with_nodes p (err e)) (with_nodes-IsLooked p (err e) has_ers h)
        there has_ers

  finish-IsExplained :
      (serve : Request → Result Body) (p : Probe)
      → IsLooked v probed p
      → IsExplained v probed (value_against serve (finish p))
  unfolding value_against
  finish-IsExplained serve p h = of_tests p.reachable p.ers refl refl
    where
      of_tests :
          (there has_ers : Bool)
          → p.reachable ≡ there
          → p.ers ≡ has_ers
          → IsExplained v probed (
              value_against serve (
                if there
                then (if has_ers
                    then (ers_list "/ers/config/node" >>= λ r.
                        ret (with_version_note (with_nodes p r)))
                    else ret p)
                else ret (with_note p (said no_answer))))
      of_tests true true e e' =
          subst (IsExplained v probed)
            (sym (value_against-bind serve (ers_list "/ers/config/node") _))
            (of_nodes-IsExplained p (value_against serve (ers_list "/ers/config/node")) h e e')
      of_tests true false e e' = looked-IsExplained p h e (ground (arith, e'))
      of_tests false has_ers e e' = unreachable-IsExplained p h e (ers_reached p h e)

-- The answers that the probe bases its report on.
abbrev pub version_answer : (Request → Result Body) → Result Body
version_answer serve = serve (record {
  method = read;
  url = url_at ers "/ers/config/op/systemconfig/iseversion";
  body = none;
})

abbrev pub open_api_answer : (Request → Result Body) → Result Body
open_api_answer serve =
    serve (record {
      method = read;
      url = url_at open_api "/api/v1/endpoint?size=1&page=1";
      body = none;
    })

-- Of a deployment that answers each request in one way, the probe reports ERS as there exactly if the
-- request for the version succeeds, the OpenAPI exactly if the request for one endpoint succeeds, and the
-- deployment as reachable exactly if one of the two was answered, be it with a refusal. A note that starts
-- with "ERS API (port 9060) unavailable: ", with "OpenAPI (port 443) unavailable: ", and the ones that
-- neither answered and that ERS gave no version, are there exactly if this is so; without ERS the report
-- has no version and no nodes.
pub probe_deployment-IsExplained :
    (serve : Request → Result Body) (host : String)
    → IsExplained
        (version_answer serve)
        (open_api_answer serve)
        (value_against serve (probe_deployment host))
unfolding probe_deployment ise_version value_against
probe_deployment-IsExplained serve host =
    finish-IsExplained serve
      (first_look host (version_of (version_answer serve)) (open_api_answer serve))
      (first_look-IsLooked host (version_answer serve) (open_api_answer serve))
