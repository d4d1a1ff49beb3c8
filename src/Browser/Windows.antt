-- ===== src/Browser/Windows.antt =====
-- The windows that JavaScript gets.
use duckdb_cog.Base.{
  ℕ, ◌*◌, ◌≡◌, refl, ap, subst, ◌∙◌, Option, none, some, List, [], ◌∷◌, map, length-map, Result, ok,
  err, map_err, map_err-eq_ok, bind-eq_ok, length, inl, inr, Option-cases, Bool-cases,
}
use duckdb_cog.Base.Texts.{Text}
use duckdb_cog.Float.{Float}
use duckdb_cog.Meta.{CogMeta, Georef, Bbox}
use duckdb_cog.Zone.{Zone, ZoneError, envelope}
use duckdb_cog.Pixel.{PixelWindow}
use duckdb_cog.Pixel.Window.{envelope_window}
use duckdb_cog.Pixel.Reader.{M}
use duckdb_cog.Pixel.Reader.Zonal.{band_outside}
use duckdb_cog.Pixel.Reader.Band.{band_window, band_window_polygon}
use duckdb_cog.Pixel.Reader.Band.Shape.{Shaped, band_window-Shaped, band_window_polygon-Shaped}
use duckdb_cog.Sql.{Cog}
use duckdb_cog.Sql.Open.{Opener}
use duckdb_cog.Browser.{
  bad_zone, read_failed, J, WindowObject, or_nan, empty_object, placed_object, rect_of,
  window_result, then_opened, after_inputs, box_window, zone_window, box_argument,
  band_window_polygon_js, band_window_js,
}

module _ {F : Type 0} ⦃fl : Float F⦄ where
  -- As many values as the width and the height say.
  abbrev pub IsFilled : WindowObject F → Type 0
  IsFilled o = length o.values ≡ o.width * o.height

  envelope_window-placed :
      (m : CogMeta F) (b : Bbox F) (w : PixelWindow)
      → envelope_window m b ≡ some w
      → (g : Georef F) × (m.georef ≡ some g)
  unfolding envelope_window
  envelope_window-placed m b w e = elim (Option-cases m.georef) [
    | inr found ↦ found
    | inl absent ↦
        let e0 : ◌≡◌ {A = Option PixelWindow} none (some w) = rw (absent, envelope_window) at e in
        cc
  ]

  window_result-IsFilled :
      (m : CogMeta F) (b : Bbox F) (win : List (Option F)) (o : WindowObject F)
      → Shaped m b win
      → window_result m (some b) (some win) ≡ some o
      → IsFilled o
  unfolding window_result rect_of placed_object empty_object
  window_result-IsFilled m b [] o h e =
      let same : empty_object [] ≡ o = cc in subst IsFilled same refl
  window_result-IsFilled m b (v ∷ win) o (inl empty) e = cc
  window_result-IsFilled m b (v ∷ win) o (inr (w, at, len)) e =
      let (g, placed) = envelope_window-placed m b w at in
      let object : WindowObject F = placed_object (map or_nan (v ∷ win)) (some w) (some g) in
      let e0 : some object ≡ some o = rw (at, placed) at e in
      let same : object ≡ o = cc in subst IsFilled same (length-map or_nan (v ∷ win) ∙ len)

  shown_object :
      (m : CogMeta F) (env : Option (Bbox F)) (win : Option (List (Option F))) (o : WindowObject F)
      → ◌≡◌ {A = J (Option (WindowObject F))} (ok (window_result m env win)) (ok (some o))
      → (l : List (Option F)) × (win ≡ some l) × (window_result m env (some l) ≡ some o)
  unfolding window_result
  shown_object m env none o e = cc
  shown_object m env (some l) o e = (l, refl, cc)

  -- Without an envelope the window is empty, and so is the object.
  without_box :
      (m : CogMeta F) (l : List (Option F)) (o : WindowObject F)
      → window_result m none (some l) ≡ some o
      → l ≡ []
      → IsFilled o
  unfolding window_result rect_of placed_object empty_object
  without_box m [] o e empty = let same : empty_object [] ≡ o = cc in subst IsFilled same refl
  without_box m (v ∷ l) o e empty = cc

module _ {F T : Type 0} ⦃fl : Float F⦄ where
  no_box :
      (zone : Zone F) (c : Cog F T) (band : ℕ) (l : List (Option F))
      → envelope zone ≡ none
      → band_window_polygon c.1 c.0 zone band ≡ ok (some l)
      → l ≡ []
  unfolding band_window_polygon
  no_box zone c band l covers got = elim (Bool-cases (band_outside band c.0.num_bands)) [
    | inl outside ↦
        let e0 : ◌≡◌ {A = M (Option (List (Option F)))} (ok none) (ok (some l)) =
          rw (covers, outside, band_window_polygon) at got in
        cc
    | inr inside ↦
        let e0 : ◌≡◌ {A = M (Option (List (Option F)))} (ok (some [])) (ok (some l)) =
          rw (covers, inside, band_window_polygon) at got in
        cc
  ]

  box_window-IsFilled :
      (band : ℕ) (b : Bbox F) (c : Cog F T) (o : WindowObject F)
      → box_window band b c ≡ ok (some o)
      → IsFilled o
  unfolding box_window
  box_window-IsFilled band b c o e =
      let (win, read, e1) =
        bind-eq_ok (map_err read_failed (band_window c.1 c.0 (some b) band)) _ e in
      let (l, found, shown) = shown_object c.0 (some b) win o e1 in
      window_result-IsFilled c.0 b l o
        (band_window-Shaped c.1 c.0 b band l
          (map_err-eq_ok read_failed (band_window c.1 c.0 (some b) band) read ∙ ap ok found))
        shown

  zone_window-IsFilled :
      (band : ℕ) (zone : Zone F) (c : Cog F T) (o : WindowObject F)
      → zone_window band zone c ≡ ok (some o)
      → IsFilled o
  unfolding zone_window
  zone_window-IsFilled band zone c o e =
      let (win, read, e1) =
        bind-eq_ok (map_err read_failed (band_window_polygon c.1 c.0 zone band)) _ e in
      let (l, found, shown) = shown_object c.0 (envelope zone) win o e1 in
      let got : band_window_polygon c.1 c.0 zone band ≡ ok (some l) =
        map_err-eq_ok read_failed (band_window_polygon c.1 c.0 zone band) read ∙ ap ok found in
      by_envelope l got (envelope zone) refl shown
    where
      by_envelope :
          (l : List (Option F))
          → band_window_polygon c.1 c.0 zone band ≡ ok (some l)
          → (env : Option (Bbox F)) → envelope zone ≡ env
          → window_result c.0 env (some l) ≡ some o
          → IsFilled o
      by_envelope l got (some b) covers shown =
          window_result-IsFilled c.0 b l o
            (band_window_polygon-Shaped c.1 c.0 zone b band l covers got) shown
      by_envelope l got none covers shown =
          without_box c.0 l o shown (no_box zone c band l covers got)

module _ {W F T : Type 0} ⦃fl : Float F⦄ (open_cached : Opener W (Cog F T)) where
  after_inputs-ok :
      {A B : Type 0} (w : W) (m : J A) (next : A → W × J B) (b : B)
      → (after_inputs open_cached w m next).1 ≡ ok b
      → (a : A) × (m ≡ ok a) × ((next a).1 ≡ ok b)
  unfolding after_inputs
  after_inputs-ok w (err e) next b h = cc
  after_inputs-ok w (ok a) next b h = (a, refl, h)

  then_opened-ok :
      {B : Type 0} (o : W × Result Text (Cog F T)) (next : Cog F T → J B) (b : B)
      → (then_opened open_cached o next).1 ≡ ok b
      → (c : Cog F T) × (next c ≡ ok b)
  unfolding then_opened
  then_opened-ok (w, err e) next b h = cc
  then_opened-ok (w, ok c) next b h = (c, h)

  -- A window that `bandWindow` returns for a box, or `bandWindowPolygon` for a zone, has as many
  -- values as its width and its height say.
  pub band_window_js-IsFilled :
      (w : W) (url : Text) (band : ℕ) (o : WindowObject F)
      → ((items : List (Option F))
          → (band_window_js open_cached w url items band).1 ≡ ok (some o)
          → IsFilled o)
        × ((parse : Text → Result ZoneError (Zone F)) (wkt : Text)
            → (band_window_polygon_js open_cached parse w url wkt band).1 ≡ ok (some o)
            → IsFilled o)
  unfolding band_window_js band_window_polygon_js
  band_window_js-IsFilled w url band o = (
    λ items e.
        let next =
          λ (b : Bbox F). then_opened open_cached (open_cached w url) (box_window band b) in
        let (b, _, e1) = after_inputs-ok w (box_argument items) next (some o) e in
        let (c, e2) = then_opened-ok (open_cached w url) (box_window band b) (some o) e1 in
        box_window-IsFilled band b c o e2,
    λ parse wkt e.
        let next =
          λ (z : Zone F). then_opened open_cached (open_cached w url) (zone_window band z) in
        let (z, _, e1) = after_inputs-ok w (map_err bad_zone (parse wkt)) next (some o) e in
        let (c, e2) = then_opened-ok (open_cached w url) (zone_window band z) (some o) e1 in
        zone_window-IsFilled band z c o e2,
  )
