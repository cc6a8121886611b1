-- ===== src/Tests/ActiveDirectory.antt =====
-- Two join points of a bundle, of which the target has one without its groups.
use ise2ise.Base.{Bool, true, false, ◌≡◌, refl, String, List, [], ◌∷◌, ◌<>◌, map}
use ise2ise.Json.{Value, text, arr, obj, nil, cons, Obj, end, field}
use ise2ise.Message.{Message, Piece, lit, quoted, shown, number, truncated, address, snippet}
use ise2ise.Request.{Request}
use ise2ise.Prog.{value_against}
use ise2ise.Prog.Sends.{Sends}
use ise2ise.Ise.Errors.{Result, ok, err, failed}
use ise2ise.Ise.Decode.{Body}
use ise2ise.Report.{Action, create, skip, Item}
use ise2ise.ActiveDirectory.Preflight.{Target, judge_join_points, preflight_join_points}
use ise2ise.ActiveDirectory.Preflight.Clear.{details_of}
use ise2ise.ActiveDirectory.Preflight.Unique.{AllSound, preflight_join_points-AllSound}
use ise2ise.ActiveDirectory.Apply.{apply_join_points, is_groups}
use ise2ise.ActiveDirectory.Apply.Counts.{settled, apply_join_points-IsSettled}
use ise2ise.Import.Counts.{IsSettled}
use ise2ise.ActiveDirectory.Apply.Sent.{IsGentle, apply_join_points-IsGentle}
use ise2ise.Tests.Shared.{nothing_listed, empty_report, no_result}

-- Every number is printed as "1".
abbrev printed : Piece → String
printed (lit s) = s
printed (quoted s) = s
printed (shown s) = s
printed (number n) = "1"
printed (truncated n) = "1"
printed (address u) = ""
printed (snippet s) = s

abbrev render : Message → String
render [] = ""
render (p ∷ ps) = printed p <> render ps

abbrev groups : Value
groups = obj (field "groups" (arr (cons (obj (field "sid" (text "S-1") end)) nil)) end)

abbrev join_point : String → Obj
join_point name =
    field "name" (text name) (field "domain" (text name) (field "adgroups" groups end))

abbrev held : Obj
held = field "name" (text "corp") (field "domain" (text "corp") end)

abbrev target : Target
target = record { by_name = ("corp", held) ∷ []; by_domain = ("corp", "corp") ∷ [] }

abbrev join_points : List Obj
join_points = join_point "corp" ∷ join_point "lab" ∷ []

abbrev judged : List Item
judged = (judge_join_points target join_points empty_report).items

-- The first is there, its groups are to be loaded; the second is to be created.
verdicts_lem :
    map {B = Action × Bool} (λ it. (it.action, is_groups render it)) judged
    ≡ (skip, false) ∷ (create, true) ∷ (create, false) ∷ []
unfolding judge_join_points ise2ise.Json.rule_list ise2ise.Texts.has_suffix
verdicts_lem = refl

abbrev silent : Request → Result Body
silent q = err (failed [])

preflight_join_points-AllSound_example :
    AllSound
      (details_of silent)
      (value_against silent (preflight_join_points join_points empty_report))
preflight_join_points-AllSound_example =
    preflight_join_points-AllSound silent join_points empty_report refl

-- A target that takes every write, and lists nothing.
abbrev without_join_points : Request → Result Body
without_join_points q = ok nothing_listed

-- One join point to create, and one item about groups.
two_settled : settled render without_join_points judged ≡ 2
unfolding judge_join_points ise2ise.Json.rule_list ise2ise.Texts.has_suffix value_against
    ise2ise.Ise.Paging.ers_list ise2ise.Ise.Decode.search_result
two_settled = refl

apply_join_points-IsSettled_example :
    IsSettled
      (settled render without_join_points judged)
      no_result
      (value_against without_join_points (apply_join_points render judged no_result))
apply_join_points-IsSettled_example =
    apply_join_points-IsSettled render without_join_points judged no_result

apply_join_points-IsGentle_example : Sends IsGentle (apply_join_points render judged no_result)
apply_join_points-IsGentle_example = apply_join_points-IsGentle render judged no_result
