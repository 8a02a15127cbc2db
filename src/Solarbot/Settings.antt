-- ===== src/Solarbot/Settings.antt =====
-- The settings of the program and what stands in its configuration file.
use solarbot_update.Base.{ℕ, List, Bytes, ℤ}

-- A zone of a detector: its rectangle, and the distances and the area that count.
pub record Zone : Type 0 where
  pub x : ℤ
  pub y : ℤ
  pub width : ℤ
  pub height : ℤ
  pub min_distance : ℕ
  pub max_distance : ℕ
  pub min_area : ℤ

pub record Detector : Type 0 where
  pub camera_name : Bytes
  pub zones : List Zone

pub record Mapping : Type 0 where
  pub name : Bytes
  pub parameters : Bytes

-- The settings of the camera navigator, with a float and a double in `Value`.
pub record CamSettings (Value : Type 0) : Type 0 where
  pub navigation_angle_factor : Value
  pub rows : ℤ
  pub row_width : ℤ
  pub img_zoom : Value
  pub perspective_diff : ℤ
  pub horizontal_offset : ℤ
  pub vertical_offset : ℤ
  pub h_min : ℤ
  pub h_max : ℤ
  pub s_min : ℤ
  pub s_max : ℤ
  pub v_min : ℤ
  pub v_max : ℤ

-- The settings of the servers that the program talks to.
pub record NetSettings : Type 0 where
  pub rtk_server_host : Bytes
  pub rtk_server_port : ℕ
  pub rtk_server_password : Bytes
  pub rtk_server_asking_base : Bytes
  pub telemetry_localport : ℕ
  pub telemetry_server_host : Bytes
  pub telemetry_server_port : ℕ
  pub telemetry_server_user : Bytes
  pub telemetry_server_password : Bytes
  pub cmd_version : Bytes
  pub cmd_user : Bytes
  pub cmd_password : Bytes

pub record Conf (Value : Type 0) : Type 0 where
  pub my_id : Bytes
  pub telemetry_id : Bytes
  pub realsense_cameras : List (Bytes × Bytes)
  pub object_detectors : List Detector
  pub cropmapping_processes : List Mapping
  pub navigation_camera : Bytes
  pub udp_server_host : Bytes
  pub udp_server_port : ℕ
  pub cam_work_speed : ℤ
  pub cam : CamSettings Value
  pub net : NetSettings
  pub gps_consumers : List (Bytes × Bytes)
