-- ===== src/Lib.antt =====
-- The map workspace of the web application: what a user selects on the map, how two versions of a
-- dataset file are compared feature by feature, which layers the map holds and how the commands of
-- the user and of agents change them; the catalog that the site serves while it is refreshed; the
-- map of the query tool with its highlights; the sources of a dataset file that its views take; and
-- the listings, links and documents of the site with the tools that it offers to agents.
--
-- The parts, and the files that model them (paths from the repository's root):
--
-- webapp/src/components/map/featureSelection.ts. Selection.Features has the selected features,
-- Selection.Geometry the centroids, Selection.Normalize `normalizeSelectedFeatures`, which turns
-- the features that the map renders into selected ones by the loaded layers, and Selection.Update
-- `updateSelectedFeatures`. Its loop is Intake, over any type with a key and a group;
-- Intake.Bounds, Intake.Capped and Intake.Order have the lemmas on it. Of
-- packages/map-core/src/queryMvt.ts and selection.ts it takes the reserved property names and the
-- cap of 100.
--
-- webapp/src/components/map/featureDiff.ts. Diff.Model has the types, Diff.Versions the versions
-- and the match keys of a selection, Diff.Similarity the likeness of texts and places (with
-- featureSpatialIndex.ts), Diff.Scoring the score of a pair of features, Diff.Cells the rows and
-- their cells, Diff.Matching the greedy matching (`bestMatchForLeft`, `buildRows`), and Diff.Build
-- the summary, the sorting and `buildFeatureDiff`. The versions are ordered by VersionLabel, after
-- webapp/src/components/dataset/versionLabel.ts.
--
-- webapp/src/components/map/multiLayerSources.ts and sourceDescriptors.ts. Layers has the loaded
-- layers and `buildLoadedMapLayer` and `buildQueryMvtLayer`; Pages, after queryResults.ts, has the
-- pages of a query's result and the layer made of it.
--
-- webapp/src/components/map/mapWorkspaceCommands.ts and useMapWorkspaceCommands.ts.
-- Workspace.Layer, Workspace.Style, Workspace.Style.Accept and Workspace.Camera have the validation
-- of the commands, which throws an error that is a `Result` here. Workspace.State and
-- Workspace.Styling have the state of the hook and the commands that change it: the state with
-- every update taken in beside the references that hold what was rendered last, since a command is
-- validated against the references and then updates the state. `addDatasetLayer` waits for its
-- layer between `begin_add` and `finish_add`, and Workspace.Steps lets any other step come in
-- between; Workspace.Invariant has what every step keeps. Workspace.Order, Commands, Removal,
-- Styling.Kept, Style.Breaks and Camera.Laws have the theorems on single commands.
--
-- packages/map-core/src/category.ts is Category (the registry and `chooseLayerPalette`), and
-- webapp/src/components/map/mapDataPanelState.ts is Panel. Common has the shared lists, texts, maps
-- and results, and Js what the JavaScript engine provides. Tests has runs at concrete inputs.
--
-- webapp/src/lib/catalog-repository.ts. Catalog.Lifecycle is `CatalogLifecycle`: its state
-- (Lifecycle.State) and, in Lifecycle.Reading, Lifecycle.Refresh and Lifecycle.Events, one function
-- for each stretch of code between two `await`s, so that reads, a refresh and a close may
-- interleave in any order as a list of events. Repository objects are numbers, and the system
-- around the lifecycle logs the calls of their `close` and the pending reads. Lifecycle.Accounts
-- has where each repository stands, Lifecycle.Reads what reads may rely on and Lifecycle.Settling
-- how refreshes end; Catalog.Objects has the maps and sets of objects. Catalog.Source is `#sourceSnapshot` with
-- `releaseCatalogUrl`, and Catalog.Validation is `validateCatalogDatabase`. What the lifecycle
-- takes from them comes as the answers of its events.
--
-- dataset-mcp/ui/src/components/mapSelection.ts and mcp/highlightContext.ts. Highlights.Hidden has
-- what is not shown, Highlights.Fragment the hash of a feature without an id, Highlights.Features
-- `normalizeHighlightedFeatures` (over the loop of Intake, with Highlights.Laws), and
-- Highlights.Context the text that goes to the model.
--
-- dataset-mcp/ui/src/mcp/useMcpApp.ts. McpApp.Model has the state of the hook, and McpApp.Handlers,
-- McpApp.Prepare and McpApp.Events have one function for each handler, with what follows an `await`
-- as an event of its own: the sequence number of the tool results, the refresh of expired tokens,
-- and the preparation of layers by an abort controller. A controller that is not the current one
-- was aborted. McpApp.Tokens and McpApp.Late have what holds of any sequence of events; of
-- contracts.ts it takes the kinds of layers.
--
-- webapp/src/components/dataset/compareSources.ts and schemaSources.ts, and
-- webapp/src/components/map/sourceDescriptors.ts. Dataset.Sources has the sources of a file after
-- lib/api-client.ts, Dataset.Compare and Dataset.Schema the choice of the best source of a version,
-- over Dataset.Best, and Dataset.Descriptors the text of a descriptor in a link
-- (Descriptors.RoundTrip) and the search of a source by it (Descriptors.Search). A version that is
-- a number is given as its text.
--
-- Of the same directory, Dataset.Urls is sourceUrls.ts (over the texts of Js.Paths),
-- Dataset.ParquetPreview is parquetPreviewOptions.ts, and Dataset.GeoparquetTree is
-- geoparquetTree.ts: its nodes are a mutual block, and a write into the folder that `find` returns is
-- an update of the first folder of the name, which is the same object in the list of its siblings.
--
-- dataset-mcp/ui/src/components/tileSources.ts. McpApp.Tiles has the checks of the addresses that an
-- agent names and `resolveTileSource`; the URL and IP libraries are the record `Addresses`, what comes
-- over the network the record `TileReads`. The schema's conditions are in `metadata_fits`.
--
-- webapp/src/lib. Site.Listing is catalog-listing.ts (Listing.Documents has `publishedDatasets`),
-- Site.Links the pagination links of api-links.ts, Site.Sitemap and Site.Xml sitemap.ts, Site.Stac
-- stac-api.ts, Site.Failures interaction-analytics.ts and Site.QueryApi query-api.ts. Site.Pages has the
-- lemmas on limits and offsets, Stac.Serve is routes/stac/collections.ts, and Links.Walk and
-- Stac.Cursors follow the links as a client does, over the lemmas on the index in Stac.Index.
-- WebTools.Bounded is webmcp/result.ts, WebTools.Versions versionComparisonTool.ts, WebTools.Shapes
-- catalogShapes.ts without the shape of a schema, and WebTools.Query queryTools.ts.
--
-- Parameters. The JSON text of a descriptor and the functions on URI components are the record
-- `Codec`, whose laws `IsCodec` are a hypothesis. Of the catalog, the record `Web` has the bytes,
-- their SHA-256, the URLs and the reading of a length, and `Database` what SQLite answers; the
-- schemas of the pointer and of the rows have parsed before. The patterns of well-known text,
-- GeoJSON and tile URLs are the record `Patterns`. The engine's numbers are IEEE doubles and are
-- not modelled: the record `Js` has their operations, their printing and reading, `localeCompare`,
-- `toLowerCase` and `JSON.stringify`, and the theorems that need an order of numbers take its laws
-- as a hypothesis. `localeCompare` with options is `base_compare`, `<` on texts is `text_before`,
-- and the S2 cell library is the record `CellIndex`. A sort is an insertion sort, which is the
-- stable result that the language fixes for a comparison function that is consistent. Objects keep
-- their keys in the order of insertion; that an engine moves integer keys to the front is left out.
-- Texts are sequences of code points, where the source counts UTF-16 units. Loops are structural
-- recursion; the loops that step an offset or follow a link have fuel, and their theorems say that
-- more fuel than there are items is enough. URLs, `encodeURIComponent`, `parseInt` and base64 are
-- arguments of the definitions of Site that use them.
--
-- Not modelled: the movement of the camera and the map itself (calls of the map library), the paint
-- expressions of category.ts, the React components and routes, the SQL queries of the catalog, the
-- fetches of the query client, the conversion of catalog answers, the catalog tools and map tools of
-- agents, analytics of page views, and the Python services.
pub mod Common
pub mod Intake
pub mod Js
pub mod Layers
pub mod Selection
pub mod VersionLabel
pub mod Diff
pub mod Workspace
pub mod Category
pub mod Panel
pub mod Pages
pub mod Catalog
pub mod Highlights
pub mod Dataset
pub mod McpApp
pub mod Site
pub mod WebTools
pub mod Tests
