-- ===== src/Solarbot/Detectors.antt =====
-- The detectors of objects and their zones, as ReadConf takes them from a configuration file.
use solarbot_update.Base.{
  refl, sym, ap, ◌∙◌, ℕ, List, ℤ, Bytes, ◌≡◌, ◌<◌, ◌++◌, same, All, ◌∷◌, codes, some, [], Option,
  map, pos, ap, false, ◌∙◌, sym, append-nil, arith, append_assoc, IsInt, ◌%◌, to_int, to_int-IsInt,
}
use solarbot_update.Text.{print_int, atoi, read_fields, ◌>>=◌, starts_with, >>=-congr}
use solarbot_update.Text.Decimal.{
  fields_text, fields_text-Ends, read_fields-fields_text, print_int-Lacks, atoi-print_int,
}
use solarbot_update.Double.{Double}
use solarbot_update.Solarbot.Settings.{Zone, Detector, Conf}
use solarbot_update.Solarbot.Config.{
  parse_zone, change_back, set_key_value, read_conf_line, read_conf_lines, remove_spaces, read_conf,
  trim,
}

-- The lines that name a detector and its zones.
abbrev zone_fields : Zone → List ℤ
zone_fields z = z.y ∷ z.width ∷ z.height ∷ pos z.min_distance ∷ pos z.max_distance ∷ z.min_area ∷ []

unfoldable zone_text : Zone → Bytes
unfolding fields_text print_int
zone_text z = print_int z.x ++ fields_text (zone_fields z)

abbrev zone_line : Zone → Bytes
zone_line z = codes "ROI=" ++ zone_text z

abbrev detector_line : Bytes → Bytes
detector_line name = codes "ObjectDetectionCamera" ++ name

unfoldable pub detector_lines : List Detector → List Bytes
unfolding zone_text
detector_lines [] = []
detector_lines (d ∷ ds) = detector_line d.camera_name ∷ (map zone_line d.zones ++ detector_lines ds)

-- A zone that the program can hold.
pub record IsZone (z : Zone) : Type 0 where
  pub x : IsInt z.x
  pub y : IsInt z.y
  pub width : IsInt z.width
  pub height : IsInt z.height
  pub min_distance : z.min_distance < 65536
  pub max_distance : z.max_distance < 65536
  pub min_area : IsInt z.min_area

-- A detector that can be written: the program can hold its zones, and its name neither begins nor ends
-- with white space.
abbrev pub IsWritable : Detector → Type 0
IsWritable d = (trim d.camera_name ≡ d.camera_name) × All IsZone d.zones

parse_zone-zone_text : (z : Zone) → IsZone z → parse_zone (zone_text z) ≡ some z
unfolding parse_zone zone_text
parse_zone-zone_text z h =
    let fields = zone_fields z in
    let read : read_fields 6 (print_int z.x ++ fields_text fields) ≡ some fields =
      ap (λ t. read_fields 6 (print_int z.x ++ t)) (sym (append-nil (fields_text fields)))
      ∙ read_fields-fields_text fields (print_int z.x) [] (print_int-Lacks z.x) tt in
    let first : atoi (print_int z.x ++ fields_text fields) ≡ z.x =
      ap (λ t. atoi (print_int z.x ++ t)) (sym (append-nil (fields_text fields)))
      ∙ atoi-print_int z.x (fields_text fields ++ []) (fields_text-Ends fields [] tt) in
    rw (parse_zone, read)
      (ap some (λ i. record {
        x = (ap to_int first ∙ to_int-IsInt z.x h.x) i;
        y = to_int-IsInt z.y h.y i;
        width = to_int-IsInt z.width h.width i;
        height = to_int-IsInt z.height h.height i;
        min_distance = below z.min_distance h.min_distance i;
        max_distance = below z.max_distance h.max_distance i;
        min_area = to_int-IsInt z.min_area h.min_area i;
      }))
  where
    below : (n : ℕ) → n < 65536 → n % 65536 ≡ n
    below n lt = omega arith

change_back-last :
    {A : Type 0} (f : A → A) (before : List A) (a : A)
    → change_back f (before ++ a ∷ []) ≡ some (before ++ f a ∷ [])
unfolding change_back
change_back-last f [] a = refl
change_back-last f (b ∷ []) a = refl
change_back-last f (b ∷ b' ∷ before) a = rw (change_back-last f (b' ∷ before) a) refl

zone_text_filled : (z : Zone) → same (zone_text z) [] ≡ false
unfolding zone_text fields_text
zone_text_filled z = filled (print_int z.x) _ _
  where
    filled : (xs : Bytes) (c : ℕ) (ys : Bytes) → same (xs ++ c ∷ ys) [] ≡ false
    filled [] c ys = refl
    filled (x ∷ xs) c ys = refl

module _ (R : Double) (to_float : R.Value → R.Value) where
  abbrev with_detectors : Conf R.Value → List Detector → Conf R.Value
  with_detectors c ds = record c { object_detectors = ds }

  abbrev with_zone : Detector → Zone → Detector
  with_zone d z = record d { zones = d.zones ++ z ∷ [] }

  read_conf_line-zone :
      (z : Zone) (c : Conf R.Value) (before : List Detector) (d : Detector)
      → IsZone z
      → read_conf_line R to_float (zone_line z) (with_detectors c (before ++ d ∷ []))
        ≡ some (with_detectors c (before ++ with_zone d z ∷ []))
  unfolding read_conf_line set_key_value starts_with
  read_conf_line-zone z c before d h = rw (zone_text_filled z) (
      rw (parse_zone-zone_text z h) (
        rw (change_back-last (λ (e : Detector). record e { zones = e.zones ++ z ∷ [] }) before d)
          refl))

  read_conf_line-detector :
      (name : Bytes) (c : Conf R.Value)
      → trim name ≡ name
      → read_conf_line R to_float (detector_line name) c
        ≡ some (
            with_detectors c (c.object_detectors ++ record { camera_name = name; zones = [] } ∷ []))
  unfolding read_conf_line starts_with
  read_conf_line-detector name c h =
      ap
        (λ n.
          some
            (with_detectors c (c.object_detectors ++ record { camera_name = n; zones = [] } ∷ [])))
        h

  -- The lines without their spaces, one after the other.
  unfoldable read_tidy : List Bytes → Conf R.Value → Option (Conf R.Value)
  unfolding read_conf_line
  read_tidy [] c = some c
  read_tidy (line ∷ lines) c = do c' ← read_conf_line R to_float line c; read_tidy lines c'

  read_conf_lines-tidy :
      (lines : List Bytes) (c : Conf R.Value)
      → read_conf_lines R to_float lines c ≡ read_tidy (map remove_spaces lines) c
  unfolding read_conf_lines read_tidy
  read_conf_lines-tidy [] c = refl
  read_conf_lines-tidy (line ∷ lines) c =
      >>=-congr (read_conf_line R to_float (remove_spaces line) c) _ _
        (λ c' e. read_conf_lines-tidy lines c')

  read_tidy-zones :
      (zs : List Zone) (lines : List Bytes) (c : Conf R.Value) (before : List Detector)
      (d : Detector)
      → All IsZone zs
      → read_tidy (map zone_line zs ++ lines) (with_detectors c (before ++ d ∷ []))
        ≡ read_tidy lines (with_detectors c (before ++ record d { zones = d.zones ++ zs } ∷ []))
  unfolding read_tidy
  read_tidy-zones [] lines c before d h =
      ap (λ zs. read_tidy lines (with_detectors c (before ++ record d { zones = zs } ∷ [])))
        (sym (append-nil d.zones))
  read_tidy-zones (z ∷ zs) lines c before d (hz, hs) = rw (read_conf_line-zone z c before d hz) (
      read_tidy-zones zs lines c before (with_zone d z) hs
      ∙ ap (λ all. read_tidy lines (with_detectors c (before ++ record d { zones = all } ∷ [])))
          (append_assoc d.zones (z ∷ []) zs))

  read_tidy-detector_lines :
      (ds : List Detector) (c : Conf R.Value)
      → All IsWritable ds
      → read_tidy (detector_lines ds) c ≡ some (with_detectors c (c.object_detectors ++ ds))
  unfolding detector_lines read_tidy
  read_tidy-detector_lines [] c h =
      ap (λ ds. some (with_detectors c ds)) (sym (append-nil c.object_detectors))
  read_tidy-detector_lines (d ∷ ds) c (hd, hs) = rw (read_conf_line-detector d.camera_name c hd.0) (
      read_tidy-zones d.zones (detector_lines ds) c c.object_detectors
        (record { camera_name = d.camera_name; zones = [] }) hd.1
      ∙ read_tidy-detector_lines ds (with_detectors c (c.object_detectors ++ d ∷ [])) hs
      ∙ ap (λ all. some (with_detectors c all)) (append_assoc c.object_detectors (d ∷ []) ds))

  -- The detectors of a configuration file are read back. A file that has, for each detector in turn, a
  -- line with its camera and a line with the seven numbers of each of its zones, with spaces wherever one
  -- likes, adds these detectors with their zones, in this order, behind those that there are, and changes
  -- no other setting; the distances are of 16 bits, the
  -- other numbers of a zone are of the type `int`, and no camera's name begins or ends with white space.
  pub read_conf-detector_lines :
      (ds : List Detector) (lines : List Bytes) (c : Conf R.Value)
      → All IsWritable ds
      → map remove_spaces lines ≡ detector_lines ds
      → read_conf R to_float (some lines) c
        ≡ some (record c { object_detectors = c.object_detectors ++ ds })
  unfolding read_conf
  read_conf-detector_lines ds lines c h e =
      read_conf_lines-tidy lines c
      ∙ ap (λ tidy. read_tidy tidy c) e
      ∙ read_tidy-detector_lines ds c h
