-- ===== src/Tests/WebToolRuns.antt =====
-- Answers of the tools for an agent.
use hifld_next.Common.{
  ℕ, ◌≤◌, String, true, false, List, [], ◌∷◌, includes, some, none, ◌≡◌, ◌≢◌, ◌↔◌, refl, arith,
}
use hifld_next.Js.{str, end}
use hifld_next.Dataset.Sources.{ColumnSchema}
use hifld_next.WebTools.Bounded.{WebMcpSuccess, serialized_length, fit_success, fit_success_fits}
use hifld_next.WebTools.Versions.{VersionSource, columns, compare_file_versions}
use hifld_next.WebTools.Versions.Names.{last_column, compare_file_versions_columns}
use hifld_next.Tests.Engine.{engine, Thousandths}

-- Of texts that are ten units long, whatever they are.
abbrev units : String → ℕ
units text = 10

abbrev answer : WebMcpSuccess Thousandths
answer = record { summary = "Loaded collections."; content = str "roads"; truncated = false }

fit_success_fits_example : serialized_length engine units (fit_success engine units answer) ≤ 1500
fit_success_fits_example = fit_success_fits engine units answer (omega arith)

stays_whole : (fit_success engine units answer).truncated ≡ false
unfolding fit_success
stays_whole = refl

abbrev column : String → String → ColumnSchema
column name column_type = record { name = name; column_type = column_type }

abbrev version_with : String → List ColumnSchema → VersionSource Thousandths
version_with version given = record {
  version = some version;
  metadata = some (record { version = version; fields = end; columns = some given });
}

abbrev older : VersionSource Thousandths
older = version_with "1" (column "id" "int" ∷ column "name" "text" ∷ [])

abbrev newer : VersionSource Thousandths
newer = version_with "2" (column "id" "bigint" ∷ column "state" "text" ∷ [])

shows_all : (compare_file_versions engine older newer).truncated ≡ false
unfolding compare_file_versions
shows_all = refl

compare_file_versions_columns_example :
    let comparison = compare_file_versions engine older newer in
    let left = last_column "state" (columns older) in
    let right = last_column "state" (columns newer) in
    ((includes comparison.added_columns "state" ≡ true)
      ↔ ((left ≡ none) × ((r : ColumnSchema) × (right ≡ some r))))
    × ((includes comparison.removed_columns "state" ≡ true)
        ↔ ((right ≡ none) × ((l : ColumnSchema) × (left ≡ some l))))
    × ((includes comparison.changed_columns "state" ≡ true) ↔ (
        (l : ColumnSchema) × ((r : ColumnSchema) × (left ≡ some l)
          × (right ≡ some r)
          × (l.column_type ≢ r.column_type))))
compare_file_versions_columns_example =
    compare_file_versions_columns engine older newer "state" shows_all
