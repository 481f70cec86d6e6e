-- ===== src/Route/Reload/Restored.antt =====
-- controler/AgvRoutePlanner.cpp: what ReloadPathList makes of the path that was saved.
use hxdl_driving_control.Prelude.{
  ℕ, ◌<◌, ◌≡◌, refl, ap, ap₂, ◌∙◌, ◌⊎◌, inl, inr, List, [], ◌∷◌, map, true, false, ◌&&◌, Option,
  none, some, arith, All, length, length-map, if◌then◌else◌,
}
use hxdl_driving_control.Prelude.Int.{pos, negsuc}
use hxdl_driving_control.Route.{
  Line, WayPoint, line_of, lines_of, RoutePlanner, clear_path_list, save_path_info, is_printable,
  are_printable,
}
use hxdl_driving_control.Route.Positions.{reset_path_list}
use hxdl_driving_control.Route.Reload.{point_of, read_points, load_path_info, reload_path_list}

-- The first point of a path, or no path.
pub at_first : (points : List WayPoint) → (0 < length points) ⊎ ((◌≡◌ {A = ℕ} 0 0) × (points ≡ []))
at_first [] = inr (refl, refl)
at_first (p ∷ points) = inl (omega arith)

-- What the file keeps of a point: its radius and its mark are not printed.
abbrev pub printed : WayPoint → WayPoint
printed p = record p { radius = pos 0; action_finish = false }

-- The numbers are stored back into the members that they were printed from.
point_of-line_of : (p : WayPoint) → point_of (line_of p) ≡ printed p
unfolding point_of line_of
point_of-line_of p = refl

module _ (read_back : Line → Option Line) where
  -- sscanf finds the numbers that sprintf printed.
  abbrev pub IsRead : Line → Type 0
  IsRead l = read_back l ≡ some l

  read_points-lines_of :
      (points : List WayPoint)
      → All (λ p. IsRead (line_of p)) points
      → read_points read_back (lines_of points) ≡ map printed points
  unfolding read_points lines_of
  read_points-lines_of [] h = refl
  read_points-lines_of (p ∷ points) h =
      let rest = read_points read_back (lines_of points) in
      ap
        (λ (o : Option Line). elim o as (λ x. List WayPoint) [
          | some l ↦ point_of l ∷ rest
          | none ↦ rest
        ])
        h.0
      ∙ ap₂ (λ q l. q ∷ l) (point_of-line_of p) (read_points-lines_of points h.1)

  printed_printable : (file : List WayPoint) → are_printable (map printed file) ≡ are_printable file
  unfolding are_printable is_printable
  printed_printable [] = refl
  printed_printable (p ∷ file) = ap (λ b. is_printable p && b) (printed_printable file)

  -- A path that was saved to the file and is loaded again is the path as it was, without radius and mark, if
  -- its points' modes and actions have names, the file can be opened, and sscanf finds in every line the
  -- numbers that sprintf printed into it; its size is returned, the target is its first point, and there is no last station.
  pub reload_path_list-save_path_info :
      (r : RoutePlanner)
      → All (λ p. IsRead (line_of p)) r.path_list
      → are_printable r.path_list ≡ true
      → (r' : RoutePlanner) × (reload_path_list read_back true (save_path_info true true r).1
          ≡ some (pos (length r.path_list), r'))
        × (r'.path_list ≡ map printed r.path_list)
        × (r'.target_path_id ≡ pos 0)
        × (r'.last_path_id ≡ negsuc 0)
  unfolding reload_path_list load_path_info reset_path_list save_path_info clear_path_list
  reload_path_list-save_path_info r read named =
      let points = read_points read_back (lines_of r.path_list) in
      let same : points ≡ map printed r.path_list = read_points-lines_of r.path_list read in
      let r' = record r {
        path_list = points;
        setting = record {
          path_point_count = length points;
          target_point_id = pos 0;
          last_point_id = negsuc 0;
          saved_target = pos 0;
          saved_last = negsuc 0;
        };
        file = lines_of r.path_list;
        target_path_id = pos 0;
        last_path_id = negsuc 0;
        car_direction = pos 0;
      } in
      (
        r',
        ap (λ b. if b then some (pos (length points), r') else none)
              (ap are_printable same ∙ printed_printable r.path_list ∙ named)
            ∙ ap (λ n. some (pos n, r')) (ap length same ∙ length-map r.path_list printed),
        same,
        refl,
        refl,
      )
