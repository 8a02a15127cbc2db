-- ===== src/Solarbot.antt =====
-- solarbot/Solarbot.cpp: the parts of the main program, each in a child: the configuration file (Settings,
-- Config, Detectors), the cameras that stop the rover (Obstacles), the modes of navigation (Modes), the
-- remote controller (Controller), the corrections of the position that another server sends (Rtk), and
-- the way from the cameras to the motors (Standing).
pub mod Settings
pub mod Obstacles
pub mod Modes
pub mod Rtk
pub mod Controller
pub mod Config
pub mod Detectors
pub mod Standing
pub mod Tests
