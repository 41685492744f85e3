-- ===== src/Pathing/Polygons/Estimate.antt =====
-- The area that a tour covers, its length, and polygons scaled about the center of their box
-- (src/pathing/environment.cpp). An access out of range is none.
use obcpp.Base.{
  List, ◌≡◌, refl, Bool, true, false, not, ◌&&◌, Option, none, some, [], ◌∷◌, ◌++◌, map,
  if◌then◌else◌, All,
}
use obcpp.Base.Int.{pos}
use obcpp.Pathing.Polygons.{
  Double, XyzCoord, is_point_in_polygon, intersect, does_line_intersect_polygon, find_bounds,
}

module _ {R : Type 0} (d : Double R) where
  abbrev center_of : R × R → R
  center_of (least, greatest) = d.over (d.plus greatest least) (d.of_int (pos 2))

  unfoldable pub scale : (scale_factor : R) → List (XyzCoord R) → List (XyzCoord R)
  unfolding find_bounds
  scale scale_factor source_polygon =
      let (xs, ys) = find_bounds d source_polygon in
      map
        (λ point. record {
          x = d.plus (d.times (d.minus point.x (center_of xs)) scale_factor) (center_of xs);
          y = d.plus (d.times (d.minus point.y (center_of ys)) scale_factor) (center_of ys);
          z = d.of_int (pos 0);
        })
        source_polygon

  -- Where the lines through two pairs of points meet.
  abbrev pub meeting : (start_point end_point p1 p2 : XyzCoord R) → XyzCoord R
  meeting s e p1 p2 =
      let a1 = d.minus e.y s.y in
      let b1 = d.minus s.x e.x in
      let c1 = d.plus (d.times a1 s.x) (d.times b1 s.y) in
      let a2 = d.minus p2.y p1.y in
      let b2 = d.minus p1.x p2.x in
      let c2 = d.plus (d.times a2 p1.x) (d.times b2 p1.y) in
      let det = d.minus (d.times a1 b2) (d.times a2 b1) in
      record {
        x = d.over (d.minus (d.times b2 c1) (d.times b1 c2)) det;
        y = d.over (d.minus (d.times a1 c2) (d.times a2 c1)) det;
        z = d.of_int (pos 0);
      }

  -- `same` is the comparison of points, `distance_to` their distance.
  module _ (same : XyzCoord R → XyzCoord R → Bool) (distance_to : XyzCoord R → XyzCoord R → R) where
    abbrev found : XyzCoord R → List (XyzCoord R) → Bool
    found point [] = false
    found point (other ∷ rest) =
        let later = found point rest in if same other point then true else later

    -- The edges from the first of the list on, with the intersections so far.
    unfoldable pub meetings_from :
        (start_point end_point first : XyzCoord R)
        → (intersections : List (XyzCoord R)) → List (XyzCoord R)
        → List (XyzCoord R)
    meetings_from s e first intersections [] = intersections
    meetings_from s e first intersections (p1 ∷ rest) =
        let p2 : XyzCoord R = elim rest [ [] ↦ first | next ∷ others ↦ next ] in
        let point = meeting s e p1 p2 in
        meetings_from s e first
          (if intersect d s e p1 p2 && not (found point intersections)
            then intersections ++ (point ∷ [])
            else intersections)
          rest

    unfoldable pub find_intersections_with_polygon :
        List (XyzCoord R) → (start_point end_point : XyzCoord R) → List (XyzCoord R)
    unfolding meetings_from
    find_intersections_with_polygon [] s e = []
    find_intersections_with_polygon (p ∷ ps) s e = meetings_from s e p [] (p ∷ ps)

    -- SEARCH_RADIUS.
    abbrev search_radius : R
    search_radius = d.of_int (pos 1000)

    -- The area up to the first intersection, and the others.
    abbrev from_start : XyzCoord R → R → List (XyzCoord R) → Option (R × List (XyzCoord R))
    from_start start_point area [] = none
    from_start start_point area (a ∷ rest) =
        some (d.plus area (d.times (distance_to start_point a) search_radius), rest)

    -- The area from the last intersection on, and the others.
    abbrev to_end : XyzCoord R → R → List (XyzCoord R) → Option (R × List (XyzCoord R))
    to_end end_point area [] = none
    to_end end_point area (a ∷ rest) = elim rest [
      | [] ↦ some (d.plus area (d.times (distance_to end_point a) search_radius), [])
      | b ∷ others ↦ elim (to_end end_point area rest) [
        | none ↦ none
        | some (area', left) ↦ some (area', a ∷ left)
      ]
    ]

    -- The area between the first and the second, the third and the fourth, and so on.
    abbrev between : R → List (XyzCoord R) → Option R
    between area [] = some area
    between area (a ∷ []) = none
    between area (a ∷ b ∷ rest) =
        between (d.plus area (d.times (distance_to a b) search_radius)) rest

    module _ (mapping_region : List (XyzCoord R)) where
      -- The area so far with that of one segment.
      unfoldable pub covered : R → (start_point end_point : XyzCoord R) → Option R
      covered area s e =
          let first : Option (R × List (XyzCoord R)) =
            if is_point_in_polygon d mapping_region s
            then from_start s area (find_intersections_with_polygon mapping_region s e)
            else some (area, find_intersections_with_polygon mapping_region s e) in
          let crossed : Option R = elim first [
            | none ↦ none
            | some (area', left) ↦
                let last : Option (R × List (XyzCoord R)) =
                  if is_point_in_polygon d mapping_region e
                  then to_end e area' left
                  else some (area', left) in
                elim last [ none ↦ none | some (total, rest) ↦ between total rest ]
          ] in
          if not (does_line_intersect_polygon d s e mapping_region)
          then some
              (d.plus area (d.times (d.times (distance_to s e) search_radius) (d.of_int (pos 2))))
          else crossed

      -- The tour from the first of the list on; its last segment leads to `first`.
      unfoldable pub estimated :
          (first : XyzCoord R) (area_covered path_length : R) → List (XyzCoord R) → Option (R × R)
      unfolding covered
      estimated first area_covered path_length [] = some (area_covered, path_length)
      estimated first area_covered path_length (s ∷ rest) =
          let e : XyzCoord R = elim rest [ [] ↦ first | next ∷ others ↦ next ] in
          elim (covered area_covered s e) [
            | none ↦ none
            | some area ↦ estimated first area (d.plus path_length (distance_to s e)) rest
          ]

      unfoldable pub estimate_area_covered_and_path_length : List (XyzCoord R) → Option (R × R)
      unfolding estimated
      estimate_area_covered_and_path_length [] = some (d.of_int (pos 0), d.of_int (pos 0))
      estimate_area_covered_and_path_length (p ∷ ps) =
          estimated p (d.of_int (pos 0)) (d.of_int (pos 0)) (p ∷ ps)

-- The legs of a closed tour.
unfoldable legs_from : {A : Type 0} → A → List A → List (A × A)
legs_from first [] = []
legs_from first (s ∷ rest) =
    (s, elim rest [ [] ↦ first | next ∷ others ↦ next ]) ∷ legs_from first rest

module _ {R : Type 0} (d : Double R) (same : XyzCoord R → XyzCoord R → Bool)
    (distance_to : XyzCoord R → XyzCoord R → R) (mapping_region : List (XyzCoord R)) where
  -- The distances of the legs, added to what there is.
  unfoldable length_of : R → List (XyzCoord R × XyzCoord R) → R
  length_of total [] = total
  length_of total ((s, e) ∷ legs) = length_of (d.plus total (distance_to s e)) legs

  -- The legs at twice the search radius, added to what there is.
  unfoldable swept : R → List (XyzCoord R × XyzCoord R) → R
  swept area [] = area
  swept area ((s, e) ∷ legs) =
      swept
        (d.plus area (d.times (d.times (distance_to s e) (d.of_int (pos 1000))) (d.of_int (pos 2))))
        legs

  -- A tour that meets no edge of the region is estimated, and each leg of it counts in full, whether
  -- it lies inside the region or outside.
  estimated_apart :
      (first : XyzCoord R) (tour : List (XyzCoord R)) (area len : R)
      → All
          (λ leg. does_line_intersect_polygon d leg.0 leg.1 mapping_region ≡ false)
          (legs_from first tour)
      → estimated d same distance_to mapping_region first area len tour
        ≡ some (swept area (legs_from first tour), length_of len (legs_from first tour))
  unfolding estimated covered legs_from swept length_of
  estimated_apart first [] area len h = refl
  estimated_apart first (s ∷ rest) area len (clear, later) =
      rw (estimated, covered, clear) (estimated_apart first rest _ _ later)
