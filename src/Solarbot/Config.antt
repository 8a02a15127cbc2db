-- ===== src/Solarbot/Config.antt =====
-- solarbot/Solarbot.cpp: ReadConf, on the lines of the configuration file.
use Prim.Native.String.{String}
use solarbot_update.Base.{
  ◌||◌, ℕ, List, Bytes, Option, ◌∷◌, [], none, to_word, if◌then◌else◌, some, ◌==◌, same, ◌++◌, ◌||◌,
  Bool, codes, drop, to_int,
}
use solarbot_update.Solarbot.Settings.{Zone, Detector, Mapping, CamSettings, NetSettings, Conf}
use solarbot_update.Text.{atoi, skip_space, starts_with, read_fields, ◌>>=◌}
use solarbot_update.Double.{Double}

-- `boost::trim`.
abbrev pub backwards : Bytes → Bytes → Bytes
backwards [] out = out
backwards (c ∷ cs) out = backwards cs (c ∷ out)

abbrev pub trim : Bytes → Bytes
trim text = backwards (skip_space (backwards (skip_space text) [])) []

-- `erase(remove(...))` of the spaces.
unfoldable pub remove_spaces : Bytes → Bytes
remove_spaces [] = []
remove_spaces (c ∷ cs) = if c == 32 then remove_spaces cs else c ∷ remove_spaces cs

-- The text in front of the first `c` and the text behind it.
unfoldable pub cut : ℕ → Bytes → Option (Bytes × Bytes)
cut c [] = none
cut c (x ∷ xs) =
    if x == c
    then some ([], xs)
    else elim (cut c xs) [ none ↦ none | some (front, back) ↦ some (x ∷ front, back) ]

-- `boost::split` where it gives two texts, neither of them empty once it is trimmed.
unfoldable pub two_texts : ℕ → Bytes → Option (Bytes × Bytes)
unfolding cut
two_texts c value = elim (cut c value) [
  | none ↦ none
  | some (a, b) ↦ elim (cut c b) [
    | some more ↦ none
    | none ↦ if same (trim a) [] || same (trim b) [] then none else some (trim a, trim b)
  ]
]

-- `back()`, changed; `none` on an empty vector, where C++ leaves open what happens.
unfoldable pub change_back : {A : Type 0} → (A → A) → List A → Option (List A)
change_back f [] = none
change_back f (a ∷ []) = some (f a ∷ [])
change_back f (a ∷ b ∷ rest) = elim (change_back f (b ∷ rest)) [
  | none ↦ none
  | some changed ↦ some (a ∷ changed)
]

-- The seven numbers of a zone; `none` where a comma is missing: then the source reads behind the text.
unfoldable pub parse_zone : Bytes → Option Zone
unfolding read_fields
parse_zone value = elim (read_fields 6 value) [
  | some (y ∷ w ∷ h ∷ near ∷ far ∷ area ∷ []) ↦ some (record {
    x = to_int (atoi value);
    y = to_int y;
    width = to_int w;
    height = to_int h;
    min_distance = to_word near;
    max_distance = to_word far;
    min_area = to_int area;
  })
  | _ ↦ none
]

abbrev pub is_key : Bytes → String → Bool
is_key key name = same key (codes name)

abbrev pub port_of : Bytes → ℕ
port_of value = to_word (atoi value)

-- The keys of the servers; `none` for another key.
unfoldable pub set_net : Bytes → Bytes → NetSettings → Option NetSettings
set_net key value n =
    if is_key key "RTKServer_host"
    then some (record n { rtk_server_host = value })
    else if is_key key "RTKServer_port"
    then some (record n { rtk_server_port = port_of value })
    else if is_key key "RTKServer_password"
    then some (record n { rtk_server_password = value })
    else if is_key key "RTKServer_asking_base"
    then some (record n { rtk_server_asking_base = value })
    else if is_key key "Telemetry_localport"
    then some (record n { telemetry_localport = port_of value })
    else if is_key key "Telemetry_server_host"
    then some (record n { telemetry_server_host = value })
    else if is_key key "Telemetry_server_port"
    then some (record n { telemetry_server_port = port_of value })
    else if is_key key "Telemetry_server_user"
    then some (record n { telemetry_server_user = value })
    else if is_key key "Telemetry_server_password"
    then some (record n { telemetry_server_password = value })
    else if is_key key "CMD_version"
    then some (record n { cmd_version = value })
    else if is_key key "CMD_user"
    then some (record n { cmd_user = value })
    else if is_key key "CMD_password"
    then some (record n { cmd_password = value })
    else none

-- `to_float` is the conversion of a double to a float.
module _ (R : Double) (to_float : R.Value → R.Value) where
  -- The keys of the camera navigator; `none` for another key.
  unfoldable pub set_cam : Bytes → Bytes → CamSettings R.Value → Option (CamSettings R.Value)
  set_cam key value c =
      if is_key key "CamNavigation_angle_factor"
      then some (record c { navigation_angle_factor = to_float (R.parse value) })
      else if is_key key "CamNavigation_rows"
      then some (record c { rows = atoi value })
      else if is_key key "CamNavigation_row_width"
      then some (record c { row_width = atoi value })
      else if is_key key "CamNavigation_img_zoom"
      then some (record c { img_zoom = R.parse value })
      else if is_key key "CamNavigation_perspective_diff"
      then some (record c { perspective_diff = atoi value })
      else if is_key key "CamNavigation_horizontal_offset"
      then some (record c { horizontal_offset = atoi value })
      else if is_key key "CamNavigation_vertical_offset"
      then some (record c { vertical_offset = atoi value })
      else if is_key key "H_MIN"
      then some (record c { h_min = atoi value })
      else if is_key key "H_MAX"
      then some (record c { h_max = atoi value })
      else if is_key key "S_MIN"
      then some (record c { s_min = atoi value })
      else if is_key key "S_MAX"
      then some (record c { s_max = atoi value })
      else if is_key key "V_MIN"
      then some (record c { v_min = atoi value })
      else if is_key key "V_MAX"
      then some (record c { v_max = atoi value })
      else none

  -- The last of the chain of keys.
  unfoldable pub set_other : Bytes → Bytes → Conf R.Value → Conf R.Value
  unfolding two_texts
  set_other key value c =
      if is_key key "GPSConsumer"
      then (elim (two_texts b':' value) [
        | none ↦ c
        | some consumer ↦ record c { gps_consumers = c.gps_consumers ++ consumer ∷ [] }
      ])
      else c

  -- The keys from the fifth on.
  unfoldable pub set_value : Bytes → Bytes → Conf R.Value → Conf R.Value
  unfolding set_cam set_net set_other
  set_value key value c =
      if is_key key "NavigationCamera"
      then record c { navigation_camera = value }
      else if is_key key "UdpServerHost"
      then record c { udp_server_host = value }
      else if is_key key "UdpServerPort"
      then record c { udp_server_port = port_of value }
      else if is_key key "CamWorkSpeed"
      then record c { cam_work_speed = atoi value }
      else elim (set_cam key value c.cam) [
        | some cam ↦ record c { cam = cam }
        | none ↦ elim (set_net key value c.net) [
          | some net ↦ record c { net = net }
          | none ↦ set_other key value c
        ]
      ]

  -- A line `key=value`.
  unfoldable pub set_key_value : Bytes → Bytes → Conf R.Value → Option (Conf R.Value)
  unfolding two_texts parse_zone change_back
  set_key_value key value c =
      if is_key key "MyID"
      then some (record c { my_id = trim value; telemetry_id = trim value })
      else if is_key key "Camera"
      then some (elim (two_texts b',' value) [
        | none ↦ c
        | some camera ↦ record c { realsense_cameras = c.realsense_cameras ++ camera ∷ [] }
      ])
      else if is_key key "ROI"
      then (do
        zone ← parse_zone value
        detectors ←
            change_back (λ (d : Detector). record d { zones = d.zones ++ zone ∷ [] })
              c.object_detectors
        some (record c { object_detectors = detectors }))
      else if is_key key "CROP"
      then (do
        processes ←
            change_back (λ (p : Mapping). record p { parameters = value }) c.cropmapping_processes
        some (record c { cropmapping_processes = processes }))
      else some (set_value key value c)

  -- A line without its spaces.
  unfoldable pub read_conf_line : Bytes → Conf R.Value → Option (Conf R.Value)
  unfolding set_key_value starts_with cut
  read_conf_line line c =
      if same line [] || starts_with (codes "#") line
      then some c
      else if starts_with (codes "ObjectDetectionCamera") line
      then some (record c {
        object_detectors =
            c.object_detectors ++ record { camera_name = trim (drop 21 line); zones = [] } ∷ [];
      })
      else if starts_with (codes "Cropmapping") line
      then some (record c {
        cropmapping_processes =
            c.cropmapping_processes ++ record { name = trim (drop 11 line); parameters = [] } ∷ [];
      })
      else elim (cut b'=' line) [
        | none ↦ some c
        | some (key, value) ↦ if same value [] then some c else set_key_value key value c
      ]

  unfoldable pub read_conf_lines : List Bytes → Conf R.Value → Option (Conf R.Value)
  unfolding read_conf_line remove_spaces
  read_conf_lines [] c = some c
  read_conf_lines (line ∷ lines) c = do
    c' ← read_conf_line (remove_spaces line) c
    read_conf_lines lines c'

  -- The lines of the file, `none` where it does not open; the answer is `none` where the behaviour is
  -- undefined in C++.
  unfoldable pub read_conf : Option (List Bytes) → Conf R.Value → Option (Conf R.Value)
  unfolding read_conf_lines
  read_conf none c = some c
  read_conf (some lines) c = read_conf_lines lines c
