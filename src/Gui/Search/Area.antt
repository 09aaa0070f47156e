-- ===== src/Gui/Search/Area.antt =====
-- Where the search area is after a change of its size or of the boat's position.
use ais_live_pi.Common.{
  [], ◌∷◌, ◌++◌, codes, is_empty, ℕ, ◌<◌, ◌≡◌, true, false, arith, if◌then◌else◌,
}
use ais_live_pi.Platform.Wx.{Wx}
use ais_live_pi.Platform.Double.{Double, OrderLaws, whole, clamp}
use ais_live_pi.Platform.Json.{JsonWriter}
use ais_live_pi.Settings.Globals.{has_token}
use ais_live_pi.Gui.State.{Gui}
use ais_live_pi.Gui.Streaming.{restart_ais_stream}
use ais_live_pi.Gui.Search.{update_search_box_size, box_label}

module _ {D : Type 0} ⦃d : Double D⦄ (order : OrderLaws D) where
  clamp_bounds :
      (v lo hi : D)
      → d.lt hi lo ≡ false
      → (d.lt (clamp v lo hi) lo ≡ false) × (d.lt hi (clamp v lo hi) ≡ false)
  unfolding clamp
  clamp_bounds v lo hi h = ground (arith, order.lt_irrefl lo, order.lt_irrefl hi)

  whole_range : (n : ℕ) → n < 21 → d.lt (whole n) (whole 0) ≡ false
  whole_range n h = ground (arith, order.lt-whole n 0)

module _ {D : Type 0} ⦃d : Double D⦄ where
  -- The haversine formula: the angle between two positions, given in degrees, on a sphere with a
  -- radius of 3440.065 nautical miles, as a length.
  abbrev pub haversine_nm : D → D → D → D → D
  haversine_nm lat1 lon1 lat2 lon2 =
      let radians : D → D = λ x. d.div (d.mul x d.m_pi) (d.literal 180 0) in
      let sin_lat = d.sin (d.div (radians (d.sub lat2 lat1)) (d.literal 2 0)) in
      let sin_lon = d.sin (d.div (radians (d.sub lon2 lon1)) (d.literal 2 0)) in
      let a =
        d.add (d.mul sin_lat sin_lat)
          (d.mul (d.mul (d.mul (d.cos (radians lat1)) (d.cos (radians lat2))) sin_lon) sin_lon) in
      d.mul (d.literal 3440065 3)
        (d.mul (d.literal 2 0) (d.atan2 (d.sqrt a) (d.sqrt (d.sub (d.literal 1 0) a))))

  -- 0.3 of the smaller of the half sides in nautical miles of a box of `size` degrees, 60 miles for
  -- each, of which the one from west to east is shortened by the cosine of the latitude.
  abbrev pub inner_nm : D → D → D
  inner_nm size lat =
      let half = d.div (d.mul size (d.literal 60 0)) (d.literal 2 0) in
      let half_lon = d.mul half (d.cos (d.div (d.mul lat d.m_pi) (d.literal 180 0))) in
      d.mul (if d.lt half_lon half then half_lon else half) (d.literal 3 1)

module _ {D : Type 0} (V : Type 0) ⦃wx : Wx⦄ ⦃d : Double D⦄ ⦃w : JsonWriter D V⦄ where
  box_size_set :
      (degrees : D) (u : Gui D)
      → let t = (update_search_box_size V degrees u).dialog in
        let top : ℕ = if has_token u.globals then 20 else 10 in
        (t.search_box_size ≡ clamp degrees (whole 0) (whole top))
        × (t.widgets.slider_max ≡ top)
        × (t.widgets.slider_value ≡ d.to_int t.search_box_size)
        × (t.widgets.box_size_label ≡ box_label t.search_box_size)
  unfolding update_search_box_size restart_ais_stream
  box_size_set degrees u = ground arith

  clamp_number :
      (v lo hi : D)
      → d.eq v v ≡ true
      → d.eq lo lo ≡ true
      → d.eq hi hi ≡ true
      → d.eq (clamp v lo hi) (clamp v lo hi) ≡ true
  unfolding clamp
  clamp_number v lo hi h k l = ground arith

  -- If the comparisons of doubles are those of numbers, then for every size that is asked for, save
  -- NaN, the box afterwards is that size where it stands between 0 and the top of the slider's
  -- range, and else the end of the range that it is beyond; the box is from 0 to the top, which is
  -- 20 with a token in the settings that is not blank, and 10 without; the slider stands at the
  -- box's integer part, and the label shows the box twice, with no decimals, a degree sign behind
  -- each and " x " between them.
  pub update_search_box_size_bounds :
      OrderLaws D
      → (degrees : D) (u : Gui D) → d.eq degrees degrees ≡ true
      → let t = (update_search_box_size V degrees u).dialog in
        let top : ℕ =
          if is_empty (wx.trim false (wx.trim true u.globals.open_waters_token)) then 10 else 20 in
        let size = t.search_box_size in
        (size ≡ (
          if d.lt degrees (d.literal 0 0)
          then d.literal 0 0
          else if d.lt (d.literal top 0) degrees
          then d.literal top 0
          else degrees))
        × (d.le (d.literal 0 0) size ≡ true)
        × (d.le size (d.literal top 0) ≡ true)
        × (t.widgets.slider_max ≡ top)
        × (t.widgets.slider_value ≡ d.to_int size)
        × (t.widgets.box_size_label
            ≡ d.format_fixed 0 size
              ++ (0x00B0 ∷ [])
              ++ codes " x "
              ++ d.format_fixed 0 size
              ++ 0x00B0 ∷ [])
  unfolding clamp has_token box_label
  update_search_box_size_bounds order degrees u number =
      let top : ℕ =
        if is_empty (wx.trim false (wx.trim true u.globals.open_waters_token)) then 10 else 20 in
      let same : (if has_token u.globals then 20 else 10) ≡ top = ground arith in
      let (size, range, slider, label) = rw same at (box_size_set degrees u) in
      let small : top < 21 = ground arith in
      let zero_number = order.eq-whole 0 (omega arith) in
      let top_number = order.eq-whole top (omega arith) in
      let boxed = clamp_number degrees (whole 0) (whole top) number zero_number top_number in
      let (low, high) =
        clamp_bounds order degrees (whole 0) (whole top) (whole_range order top small) in
      (
        size,
        rw size (order.le_of_not_lt _ _ boxed zero_number low),
        rw size (order.le_of_not_lt _ _ top_number boxed high),
        range,
        slider,
        label,
      )
