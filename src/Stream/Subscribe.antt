-- ===== src/Stream/Subscribe.antt =====
-- `BuildSubscribeMessage` (ais_stream_client.cpp).
use ais_live_pi.Common.{
  ℕ, ◌≡◌, Bool, false, not, ◌&&◌, List, [], ◌∷◌, map, some, codes, text_eq, arith, is_empty, ◌==◌,
  Bool-cases, inl, inr, if◌then◌else◌,
}
use ais_live_pi.Platform.Double.{Double, OrderLaws, whole, min_of}
use ais_live_pi.Platform.Json.{JsonReader, JsonWriter, WriterLaws}

-- A final line feed is removed.
unfoldable pub pop_newline : List ℕ → List ℕ
pop_newline [] = []
pop_newline (c ∷ []) = if c == 10 then [] else c ∷ []
pop_newline (c ∷ e ∷ s) = c ∷ pop_newline (e ∷ s)

module _ {D : Type 0} ⦃d : Double D⦄ where
  -- `kTokenMaxBoxSizeDegrees` and `kStandardMaxBoxSizeDegrees`
  abbrev pub max_box_size : Bool → D
  max_box_size use_token = if use_token then whole 20 else whole 10

  unfoldable pub box_size : Bool → D → D
  box_size use_token degrees = min_of degrees (max_box_size use_token)

  -- The corners: south, west, north, east.
  unfoldable pub search_area : D → D → D → List D
  search_area latitude longitude size =
      let half = d.div size (whole 2) in
      d.sub latitude half ∷ d.sub longitude half ∷ d.add latitude half ∷ d.add longitude half ∷ []

module _ {D : Type 0} (V : Type 0) ⦃d : Double D⦄ ⦃w : JsonWriter D V⦄ where
  -- `sub_msg`, as it is written
  unfoldable pub subscribe_value : Bool → D → D → D → Bool → List ℕ → Bool → V
  subscribe_value use_token latitude longitude degrees activate_vessels_following mmsi_list
        snapshot =
      let area = search_area latitude longitude (box_size use_token degrees) in
      let bbox = w.array (w.array (map w.number area) ∷ []) in
      let head = w.set_member w.null (codes "type") (w.string (codes "subscribe")) in
      let placed = w.set_member head (codes "bbox") bbox in
      let followed =
        if not (is_empty mmsi_list) && activate_vessels_following
        then w.set_member placed (codes "mmsi") (w.array (map w.uint mmsi_list))
        else placed in
      w.set_member followed (codes "snapshot") (w.boolean snapshot)

  unfoldable pub build_subscribe_message : Bool → D → D → D → Bool → List ℕ → Bool → List ℕ
  build_subscribe_message use_token latitude longitude degrees following mmsi_list snapshot =
      pop_newline (
        w.write (subscribe_value use_token latitude longitude degrees following mmsi_list snapshot))

  module _ ⦃j : JsonReader V⦄ where
    module _ (order : OrderLaws D) where
      box_size-le :
          (use_token : Bool) (degrees : D)
          → d.lt (max_box_size use_token) (box_size use_token degrees) ≡ false
      unfolding box_size min_of
      box_size-le use_token degrees = ground (arith, order.lt_irrefl (max_box_size use_token))

    -- If the comparison of doubles is irreflexive, jsoncpp sets and reads members as documented, and
    -- `limit` is 20 in token mode and 10 outside it and `size` the requested size where that is not
    -- above the limit, and else the limit: then the size is not above the limit; and the request is
    -- of type "subscribe", has the snapshot flag, and has as its "bbox" one list of the position's
    -- latitude and longitude less half the size and both with half the size added; and it has "mmsi"
    -- just when following is on and the list is not empty, with the list's numbers in order.
    pub subscribe_value_members :
        OrderLaws D
        → WriterLaws D V
        → (use_token : Bool) (lat lon degrees : D) (following : Bool) (mmsis : List ℕ)
          (snapshot : Bool)
        → let v = subscribe_value use_token lat lon degrees following mmsis snapshot in
          let limit = if use_token then d.literal 20 0 else d.literal 10 0 in
          let size = if d.lt limit degrees then limit else degrees in
          (d.lt limit size ≡ false)
          × (j.member v (codes "type") ≡ w.string (codes "subscribe"))
          × (j.member v (codes "bbox")
              ≡ w.array (
                  w.array (
                    w.number (d.sub lat (d.div size (d.literal 2 0)))
                    ∷ w.number (d.sub lon (d.div size (d.literal 2 0)))
                    ∷ w.number (d.add lat (d.div size (d.literal 2 0)))
                    ∷ w.number (d.add lon (d.div size (d.literal 2 0)))
                    ∷ [])
                  ∷ []))
          × (j.member v (codes "snapshot") ≡ w.boolean snapshot)
          × (j.is_member v (codes "mmsi") ≡ some (not (is_empty mmsis) && following))
          × (j.member v (codes "mmsi")
              ≡ (if not (is_empty mmsis) && following then w.array (map w.uint mmsis) else w.null))
    unfolding subscribe_value text_eq search_area box_size min_of
    subscribe_value_members order laws use_token lat lon degrees following mmsis snapshot =
        elim (Bool-cases (not (is_empty mmsis) && following)) [
          | inl listed ↦ (
            box_size-le order use_token degrees,
            simp (listed, laws.member-set_member),
            simp (listed, laws.member-set_member),
            simp (listed, laws.member-set_member),
            simp (listed, laws.is_member-set_member, laws.is_member-null),
            simp (listed, laws.member-set_member),
          )
          | inr unlisted ↦ (
            box_size-le order use_token degrees,
            simp (unlisted, laws.member-set_member),
            simp (unlisted, laws.member-set_member),
            simp (unlisted, laws.member-set_member),
            simp (unlisted, laws.is_member-set_member, laws.is_member-null),
            simp (unlisted, laws.member-set_member, laws.member-null),
          )
        ]
