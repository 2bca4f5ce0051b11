-- ===== src/Tests/Options.antt =====
-- The options of `usbws list` without libusb.
use usbws_lws.Options.{list}
use usbws_lws.Options.Help.{dev}
use usbws_lws.Options.Agree.{Agrees, options_agree}
use usbws_lws.Base.{false}

options_agree_example : Agrees dev false list
options_agree_example = options_agree dev false list
