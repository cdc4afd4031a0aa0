-- ===== src/Selection/Geometry.antt =====
-- GeoJSON geometries, and their centroids as featureSelection.ts takes them.
use hifld_next.Common.{ℕ, suc, String, List, [], ◌∷◌, ◌++◌, Option, none, some, if◌then◌else◌, eqb}
use hifld_next.Js.{Js, Value, Values, num, str, arr, obj, nil, cons, end, field, whole}
use hifld_next.Selection.Features.{LngLat}

module _ (js : Js) where
  -- GeoJSON geometries; `shape` is any type but `Point` and `GeometryCollection`.
  mutual
    pub data Geometry : Type 0 where
      point : Value js.Number → Geometry
      shape : String → Value js.Number → Geometry
      geometry_collection : Geometries → Geometry

    pub data Geometries : Type 0 where
      nil_geometries : Geometries
      cons_geometry : Geometry → Geometries → Geometries

  -- A geometry as the value that `JSON.stringify` is given.
  unfoldable mutual
    pub geometry_value : Geometry → Value js.Number
    geometry_value (point c) = obj (field "type" (str "Point") (field "coordinates" c end))
    geometry_value (shape t c) = obj (field "type" (str t) (field "coordinates" c end))
    geometry_value (geometry_collection gs) = obj (
        field "type" (str "GeometryCollection") (field "geometries" (arr (geometry_values gs)) end))

    pub geometry_values : Geometries → Values js.Number
    geometry_values nil_geometries = nil
    geometry_values (cons_geometry g gs) = cons (geometry_value g) (geometry_values gs)

  unfoldable pub point_from_coordinates : Value js.Number → Option (LngLat js)
  point_from_coordinates (arr (cons (num lng) (cons (num lat) _))) =
      some (record { lng = lng; lat = lat })
  point_from_coordinates _ = none

  -- `collectCoordinates`: the positions under nested arrays, in order.
  unfoldable mutual
    pub collect_coordinates : Value js.Number → List (Value js.Number)
    collect_coordinates (arr (cons (num lng) (cons (num lat) rest))) =
        arr (cons (num lng) (cons (num lat) rest)) ∷ []
    collect_coordinates (arr vs) = collect_all vs
    collect_coordinates _ = []

    pub collect_all : Values js.Number → List (Value js.Number)
    collect_all nil = []
    collect_all (cons v vs) = collect_coordinates v ++ collect_all vs

  mutual
    geometry_positions : Geometry → List (Value js.Number)
    geometry_positions (point c) = collect_coordinates c
    geometry_positions (shape t c) = collect_coordinates c
    geometry_positions (geometry_collection gs) = geometries_positions gs

    geometries_positions : Geometries → List (Value js.Number)
    geometries_positions nil_geometries = []
    geometries_positions (cons_geometry g gs) = geometry_positions g ++ geometries_positions gs

  pub record Totals : Type 0 where
    pub lng_total : js.Number
    pub lat_total : js.Number
    pub count : ℕ

  add_positions : Totals → List (Value js.Number) → Totals
  unfolding point_from_coordinates
  add_positions t [] = t
  add_positions t (position ∷ positions) =
      add_positions
        (elim (point_from_coordinates position) [
          | none ↦ t
          | some p ↦ record {
            lng_total = js.plus t.lng_total p.lng;
            lat_total = js.plus t.lat_total p.lat;
            count = suc t.count;
          }
        ])
        positions

  mean_position : List (Value js.Number) → Option (LngLat js)
  unfolding add_positions
  mean_position positions =
      let zero_totals : Totals = record {
        lng_total = whole js 0;
        lat_total = whole js 0;
        count = 0;
      } in
      let t = add_positions zero_totals positions in
      if eqb t.count 0
      then none
      else some (record {
        lng = js.divide t.lng_total (whole js t.count);
        lat = js.divide t.lat_total (whole js t.count);
      })

  unfoldable pub centroid_for_geometry : Geometry → Option (LngLat js)
  unfolding mean_position point_from_coordinates geometry_positions
  centroid_for_geometry (point c) = point_from_coordinates c
  centroid_for_geometry g = mean_position (geometry_positions g)

  unfoldable pub point_centroid : Geometry → Option (LngLat js)
  unfolding point_from_coordinates
  point_centroid (point c) = point_from_coordinates c
  point_centroid _ = none
