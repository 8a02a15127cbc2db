-- ===== src/Solarbot/Standing.antt =====
-- From the cameras to the motors: the stop for objects, Move and the driver board together.
use solarbot_update.Double.{Double}
use solarbot_update.ControlUnit
use solarbot_update.ControlUnit.{ControlUnit}
use solarbot_update.Navigator.{Navigator}
