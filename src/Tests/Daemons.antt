-- ===== src/Tests/Daemons.antt =====
-- A run of the daemon with SSL and a pid file, which a SIGINT ends in its second turn.
use usbws_lws.Base.{◌∷◌, [], List, true, false, none, some, pos}
use usbws_lws.Util.{use_stderr}
use usbws_lws.Daemon.Options.{Opt, Build}
use usbws_lws.Util.{Libc}
use usbws_lws.Daemon.Options
use usbws_lws.Daemon.Acts
use usbws_lws.Daemon.Acts.{Act}
use usbws_lws.Daemon.Service.{Served}
use usbws_lws.Daemon.Run.{Answers}
use usbws_lws.Ctx.Protocols.{protocols}

abbrev linux : Build
linux = record {
  with_libusb = false;
  on_unix = true;
  default_pid_file = none;
  default_path = [];
  default_key_file = b'k' ∷ [];
  default_cert_file = b'c' ∷ [];
}

abbrev libc : Libc
libc = record { strtol = λ base digits. pos 30; to_int = λ z. z; to_unsigned_long = λ z. 0 }

abbrev turns : List Served
turns =
    record { ret = pos 0; interrupted = false } ∷ record { ret = pos 0; interrupted = true } ∷ []

abbrev answers : Answers
answers = record {
  fopen_succeeds = true;
  fprintf_returns = pos 5;
  driver_open_returns = pos 0;
  daemon_returns = pos 0;
  times1000 = λ z. z;
  created = some 9;
  turns = turns;
}

abbrev options : List Opt
options = Options.ssl ∷ Options.pid (some (b'p' ∷ [])) ∷ Options.interval (b'3' ∷ b'0' ∷ []) ∷ []

abbrev run : List Act
run =
    Acts.set_log (use_stderr ∷ [])
    ∷ Acts.pid_opened (b'p' ∷ [])
    ∷ Acts.pid_closed
    ∷ Acts.driver_opened
    ∷ Acts.context_created
        (record {
          protocols = protocols;
          port = pos 443;
          ssl_private_key_filepath = some (b'k' ∷ []);
          ssl_cert_filepath = some (b'c' ∷ []);
        })
        9
    ∷ Acts.set_sigint
    ∷ Acts.serviced 9 (pos 30)
    ∷ Acts.health_checked 9
    ∷ Acts.serviced 9 (pos 30)
    ∷ Acts.health_checked 9
    ∷ Acts.context_destroyed 9
    ∷ Acts.driver_closed
    ∷ Acts.pid_removed (b'p' ∷ [])
    ∷ []
