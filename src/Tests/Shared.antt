-- ===== src/Tests/Shared.antt =====
-- Data that several tests share.
use ise2ise.Base.{some, []}
use ise2ise.Json.{obj, end, field}
use ise2ise.Ise.Decode.{Body}
use ise2ise.Report.{Report, ImportResult}

abbrev pub empty_report : Report
empty_report = record { items = []; create = 0; skip = 0; blocked = 0; notes = [] }

abbrev pub no_result : ImportResult
no_result = record { created = 0; skipped = 0; blocked = 0; failed = 0; errors = [] }

-- An ERS list without resources.
abbrev pub nothing_listed : Body
nothing_listed = record {
  raw = "{\"SearchResult\": {}}";
  json = some (obj (field "SearchResult" (obj end) end));
}
