-- ===== src/Solarbot/Tests.antt =====
-- The main program at concrete inputs.
use solarbot_update.Base.{
  negsuc, none, ℕ, ◌+◌, ◌≡◌, refl, arith, true, false, some, List, [], ◌∷◌, ◌++◌, Bytes, All,
  IsByte, inl, pos, codes, replicate, all_bytes_sound, all_bytes, ℤ, length, ◌<◌,
}
use solarbot_update.Aes128.{decrypt, set_key}
use solarbot_update.MasterApp.Commands.{mode_visual}
use solarbot_update.Serial.{read_into, read_timeout}
use solarbot_update.Solarbot.Obstacles.{
  Detection, Cycle, Watch, watch_all, started, Sees, watch_all-stop, watch_all-release,
}
use solarbot_update.Double.{whole}
use solarbot_update.Navigator.{Navigator}
use solarbot_update.Navigator.Tests.{parked}
use solarbot_update.ControlUnit
use solarbot_update.ControlUnit.{ControlUnit, command_line}
use solarbot_update.ControlUnit.Tests.{idle, opened}
use solarbot_update.Solarbot.Settings.{Detector, Conf, CamSettings, NetSettings}
use solarbot_update.Solarbot.Config.{read_conf, remove_spaces, set_value}
use solarbot_update.Solarbot.Detectors.{IsZone, detector_lines, read_conf-detector_lines}
use solarbot_update.Text.{skip_space}
use solarbot_update.Solarbot.Modes.{
  Setup, Initialized, init_mode, init_mode-again, IsValid, find_camera,
}
use solarbot_update.Solarbot.Rtk.{
  Identity, Rtk, rtk_round, extract_key, authentication_text, pad_blocks, blocks, rtk_round-request,
}

abbrev near : List Detection
near = record { camera_name = codes "Left"; results = 65535 ∷ 800 ∷ [] } ∷ []

abbrev far : List Detection
far = record { camera_name = codes "Left"; results = 65535 ∷ 65535 ∷ [] } ∷ []

abbrev at : ℕ → List Detection → Cycle
at now detections = record { first = now; second = now + 10; detections = detections }

near-Sees : Sees near
unfolding Sees
near-Sees = inl refl

watch_all-stop_example :
    (watch_all (started 1000000) (at 1250000 near ∷ at 1750000 near ∷ [])).do_not_move ≡ true
watch_all-stop_example =
    watch_all-stop (started 1000000) (at 1250000 near ∷ []) (at 1750000 near) (near-Sees, tt)
      near-Sees (omega arith)

abbrev stopped : Watch
stopped = record {
  do_not_move = true;
  last_object_detection_stop = 2000000;
  last_object_detection_stop_filter = 1000000;
}

abbrev cycles : List Cycle
cycles = at 2250000 far ∷ at 2500000 near ∷ at 4900000 far ∷ []

abbrev waiting : Navigator ℤ
waiting = record parked { do_not_move = true; motor_left = pos 300; motor_right = pos 280 }

abbrev told : ControlUnit
told = record opened {
  report = record idle { status = read_timeout };
  sent = command_line (pos 0) (pos 0);
}

watch_all-release_example :
    (watch_all stopped (at 4900000 far ∷ at 5150000 far ∷ [])).do_not_move ≡ false
watch_all-release_example =
    watch_all-release stopped (at 4900000 far ∷ []) (at 5150000 far) ((refl, tt), tt) (refl, tt)
      (omega arith)

abbrev settings : Setup
settings = record {
  waypoints_file = [];
  navigation_camera = codes "Front";
  realsense_cameras = codes "Left" ∷ codes "Front" ∷ [];
  load_waypoints = pos 0;
  cam_init = true;
  line_init = pos 0;
}

abbrev fresh : Initialized
fresh = record {
  mode_waypoint_initialized = false;
  mode_visual_initialized = false;
  mode_line_initialized = false;
  camnavigator_cam_index = 0;
}

abbrev visual : Initialized
visual = record fresh { mode_visual_initialized = true; camnavigator_cam_index = 1 }

visual_begins : init_mode mode_visual settings fresh ≡ (visual, pos 0)
unfolding init_mode find_camera
visual_begins = refl

init_mode-again_example :
    (init_mode mode_visual (record settings { cam_init = false }) visual ≡ (visual, pos 0))
    × IsValid settings.realsense_cameras visual
init_mode-again_example =
    init_mode-again mode_visual settings (record settings { cam_init = false }) fresh visual
      (λ e. omega arith) visual_begins

abbrev rover : Identity
rover = record {
  my_id = codes "SB1";
  rtk_server_password = codes "pw";
  rtk_server_asking_base = codes "B2";
  latitude = codes "40.500000";
  longitude = codes "-3.400000";
}

abbrev link : Rtk
link = record {
  expanded_keys = replicate 176 0;
  tick_to_send_aloha = 0;
  rx_buffer = replicate 1024 0;
  to_gps = [];
  to_server = [];
}

text_bytes : All IsByte (authentication_text rover)
unfolding authentication_text all_bytes
text_bytes = all_bytes_sound (authentication_text rover) refl

text_fits : length (authentication_text rover) < 128
unfolding authentication_text
text_fits = omega arith

buffer_bytes : All IsByte (read_into link.rx_buffer (codes "ROV" ++ 65 ∷ 66 ∷ []))
unfolding all_bytes
buffer_bytes = all_bytes_sound (read_into link.rx_buffer (codes "ROV" ++ 65 ∷ 66 ∷ [])) refl

rtk_round-request_example :
    (key answer : Bytes) × (k' : Rtk) × (rtk_round pos rover (codes "ROV" ++ 65 ∷ 66 ∷ []) link
      ≡ some k')
    × (extract_key pos 16 (pos 11) k'.rx_buffer ≡ some key)
    × (k'.expanded_keys ≡ set_key key)
    × (k'.to_server ≡ answer ∷ [])
    × (k'.to_gps ≡ [])
    × (decrypt (set_key key) answer (blocks (authentication_text rover))
        ≡ pad_blocks (authentication_text rover))
rtk_round-request_example =
    rtk_round-request pos (λ b h. refl) rover 65 66 [] link buffer_bytes text_bytes text_fits

abbrev plain_cam : CamSettings ℤ
plain_cam = record {
  navigation_angle_factor = pos 25;
  rows = pos 6;
  row_width = pos 124;
  img_zoom = pos 1;
  perspective_diff = pos 120;
  horizontal_offset = pos 40;
  vertical_offset = pos 0;
  h_min = pos 21;
  h_max = pos 117;
  s_min = pos 51;
  s_max = pos 256;
  v_min = pos 72;
  v_max = pos 256;
}

abbrev plain_net : NetSettings
plain_net = record {
  rtk_server_host = codes "192.168.0.0";
  rtk_server_port = 4002;
  rtk_server_password = [];
  rtk_server_asking_base = codes "0000";
  telemetry_localport = 2010;
  telemetry_server_host = [];
  telemetry_server_port = 0;
  telemetry_server_user = [];
  telemetry_server_password = [];
  cmd_version = codes "SolarBot";
  cmd_user = codes "user";
  cmd_password = codes "password";
}

abbrev plain : Conf ℤ
plain = record {
  my_id = codes "0000";
  telemetry_id = [];
  realsense_cameras = [];
  object_detectors = [];
  cropmapping_processes = [];
  navigation_camera = codes "Center";
  udp_server_host = [];
  udp_server_port = 0;
  cam_work_speed = pos 1000;
  cam = plain_cam;
  net = plain_net;
  gps_consumers = [];
}

abbrev front_camera : Detector
front_camera = record {
  camera_name = codes "Front";
  zones =
      record {
        x = pos 10;
        y = negsuc 4;
        width = pos 320;
        height = pos 240;
        min_distance = 500;
        max_distance = 1500;
        min_area = pos 40;
      }
      ∷ [];
}

front-IsZone : IsZone (record {
  x = pos 10;
  y = negsuc 4;
  width = pos 320;
  height = pos 240;
  min_distance = 500;
  max_distance = 1500;
  min_area = pos 40;
})
front-IsZone = record {
  x = omega arith;
  y = omega arith;
  width = omega arith;
  height = omega arith;
  min_distance = omega arith;
  max_distance = omega arith;
  min_area = omega arith;
}

read_conf-detector_lines_example :
    read_conf whole
      (λ v. v)
      (some
        (codes "ObjectDetectionCamera Front" ∷ codes "ROI = 10, -5, 320, 240, 500, 1500, 40" ∷ []))
      plain
    ≡ some (record plain { object_detectors = front_camera ∷ [] })
unfolding remove_spaces detector_lines skip_space
read_conf-detector_lines_example =
    read_conf-detector_lines whole (λ v. v) (front_camera ∷ [])
      (codes "ObjectDetectionCamera Front" ∷ codes "ROI = 10, -5, 320, 240, 500, 1500, 40" ∷ [])
      plain ((refl, (front-IsZone, tt)), tt) refl

-- A key of the servers, one of the camera navigator, and two cameras of which one has no serial number.
read_conf_run :
    read_conf whole
      (λ v. v)
      (some (
        codes "# settings"
        ∷ []
        ∷ codes "RTKServer_port = 70000"
        ∷ codes "H_MIN=12"
        ∷ codes "Camera=Front,0815"
        ∷ codes "Camera=Back,"
        ∷ codes "MyID="
        ∷ []))
      plain
    ≡ some (record plain {
      realsense_cameras = (codes "Front", codes "0815") ∷ [];
      cam = record plain_cam { h_min = pos 12 };
      net = record plain_net { rtk_server_port = 4464 };
    })
unfolding read_conf set_value
read_conf_run = refl

-- A zone without a detector.
read_conf_zone_run : read_conf whole (λ v. v) (some (codes "ROI=1,2,3,4,5,6,7" ∷ [])) plain ≡ none
unfolding read_conf
read_conf_zone_run = refl
