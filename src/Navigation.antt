-- ===== src/Navigation.antt =====
-- src/utils/utils.h and .cpp, and `ComputeFollowThresholdNm` of src/main-ui/main_ui_derived.cpp.
use ais_live_pi.Platform.Double.{Double, whole, min_of}

module _ {D : Type 0} ⦃d : Double D⦄ where
  unfoldable pub deg_to_rad : D → D
  deg_to_rad deg = d.div (d.mul deg d.m_pi) (whole 180)

  -- `a` of the haversine formula, then the distance.
  unfoldable pub haversine : D → D → D → D → D
  haversine lat1 lon1 lat2 lon2 =
      let half_lat = d.div (deg_to_rad (d.sub lat2 lat1)) (whole 2) in
      let half_lon = d.div (deg_to_rad (d.sub lon2 lon1)) (whole 2) in
      d.add (d.mul (d.sin half_lat) (d.sin half_lat)) (
        d.mul (d.mul (d.mul (d.cos (deg_to_rad lat1)) (d.cos (deg_to_rad lat2))) (d.sin half_lon))
          (d.sin half_lon))

  unfoldable pub great_circle_distance_nm : D → D → D → D → D
  great_circle_distance_nm lat1 lon1 lat2 lon2 =
      let a = haversine lat1 lon1 lat2 lon2 in
      let c = d.mul (whole 2) (d.atan2 (d.sqrt a) (d.sqrt (d.sub (whole 1) a))) in
      d.mul (d.literal 3440065 3) c

  unfoldable pub follow_threshold_nm : D → D → D
  follow_threshold_nm search_box_size_degrees latitude =
      let half_side_lat = d.div (d.mul search_box_size_degrees (whole 60)) (whole 2) in
      let half_side_lon = d.mul half_side_lat (d.cos (deg_to_rad latitude)) in
      d.mul (min_of half_side_lat half_side_lon) (d.literal 3 1)
