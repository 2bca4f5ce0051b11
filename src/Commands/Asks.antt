-- ===== src/Commands/Asks.antt =====
-- What `usbws detach` and `usbws list` ask of the USB/IP library.
use usbws_lws.Base.{
  ◌≡◌, ◌⊎◌, inl, inr, suc, refl, subst, Bool, true, false, Option, none, some, List, [], ◌∷◌, ◌++◌,
  arith, ℤ, pos, negsuc, is_true, is_some, if◌then◌else◌, Option-cases, Bool-cases, ◌||◌,
}
use usbws_lws.Util.{Str, Libc}
use usbws_lws.Client.Memory.{Memory}
use usbws_lws.Client.State.{Client, Defaults, client_init}
use usbws_lws.Client.Target.{
  Uri, Platform, client_free, set_target, set_proxy, ssl_of, with_uri, handle_verification,
}
use usbws_lws.Commands.Calls.{
  log_calls, device_calls, detach_port, list_local_devices, list_importable_devices,
}
use usbws_lws.Commands.Loop.{done, state_of, options_loop_keeps, options_loop_returns}
use usbws_lws.Commands.Serves.{device_calls-log_calls}
use usbws_lws.Commands.Detach.{
  DetachOpt, DetachOptions, no_detach_options, detach_option, detach_required, detach_options,
  detach_command,
}
use usbws_lws.Commands.Listing.{
  ListOpt, ListOptions, ListState, no_list_options, list_option, list_required, list_options,
  ListLibrary, list_local, list_remote, list_command,
}

-- With 0 the options have a port, or ask for help.
abbrev Ready : ℤ → DetachOptions → Type 0
Ready ret o = (is_true ret ≡ true) ⊎ (o.help ≡ true) ⊎ (is_some o.port ≡ true)

detach_option-Ready :
    (with_libusb : Bool) (l : Libc) (opt : DetachOpt) (s t : DetachOptions) (ret : ℤ)
    → detach_option with_libusb l opt s ≡ done ret t
    → Ready ret t
unfolding detach_option
detach_option-Ready with_libusb l opt s t ret e = ground arith

detach_options-Ready :
    (with_libusb : Bool) (l : Libc) (opts : List DetachOpt) (o : DetachOptions)
    → let (ret, t) = detach_options with_libusb l opts o in Ready ret t
unfolding detach_options
detach_options-Ready with_libusb l opts o =
    options_loop_returns (detach_option with_libusb l) (detach_required with_libusb l) Ready
      (λ s. ground arith) (detach_option-Ready with_libusb l) opts o

-- Whatever the options, `usbws detach` either asks the library for nothing, and returns 0 or -1, or
-- makes one call, for a port that was given, and returns what the call returns.
pub detach_asks :
    (with_libusb : Bool) (l : Libc) (returns : Option Str → ℤ) (opts : List DetachOpt)
    → let (ret, calls) = detach_command with_libusb l returns opts in
      ((device_calls calls ≡ []) × ((ret ≡ pos 0) ⊎ (ret ≡ negsuc 0)))
      ⊎ ((port : Str) × (device_calls calls ≡ detach_port (some port) ∷ [])
          × (ret ≡ returns (some port)))
unfolding detach_command
detach_asks with_libusb l returns opts = elim (Bool-cases (is_true r.0 || r.1.help)) [
  | inl stopped ↦ inl (ground arith, ground arith)
  | inr runs ↦ elim (Option-cases r.1.port) [
    | inl missing ↦ absurd (ground (arith, ready))
    | inr (port, given) ↦ inr (
      port,
      ground (
        arith,
        device_calls-log_calls with_libusb r.1.debug r.1.flags (detach_port r.1.port ∷ []),
      ),
      ground arith,
    )
  ]
]
  where
    r : ℤ × DetachOptions
    r = detach_options with_libusb l opts no_detach_options

    ready : Ready r.0 r.1
    ready = detach_options-Ready with_libusb l opts no_detach_options

-- The blocks of a client that has none.
abbrev NoBlocks : ListState → Type 0
NoBlocks (o, c) = (c.url_work ≡ none) × (c.proxy ≡ none)

list_option-NoBlocks :
    (with_libusb : Bool) (l : Libc) (opt : ListOpt) (s : ListState)
    → NoBlocks s
    → NoBlocks (state_of (list_option with_libusb l opt s))
unfolding list_option handle_verification
list_option-NoBlocks with_libusb l opt s h = ground arith

list_options-NoBlocks :
    (with_libusb : Bool) (l : Libc) (opts : List ListOpt) (s : ListState)
    → NoBlocks s
    → NoBlocks (list_options with_libusb l opts s).1
unfolding list_options
list_options-NoBlocks with_libusb l opts s h =
    options_loop_keeps (list_option with_libusb l) (list_required with_libusb l) NoBlocks
      (list_option-NoBlocks with_libusb l) opts s h

module _ (with_libusb : Bool) (l : Libc) (defaults : Defaults) (p : Platform) (lib : ListLibrary)
    (opts : List ListOpt) (m : Memory) (o : ListOptions) (c : Client)
    (parsed : list_options with_libusb l opts (no_list_options, client_init defaults)
      ≡ (pos 0, (o, c)))
    (plain : o.help ≡ false) where
  -- Where the options are accepted without help, `usbws list` with `--local`, and whatever URL or
  -- proxy besides, takes no memory, makes the one call that lists the local devices, after those
  -- that set the log, and returns 0 if that call does, and -1 otherwise.
  pub list_command_local :
      o.local ≡ true
      → list_command with_libusb l defaults p lib opts m
        ≡ some (
          if is_true (lib.local_returns o.parsable) then negsuc 0 else pos 0,
          m,
          log_calls with_libusb o.debug o.flags ++ list_local_devices o.parsable ∷ [],
        )
  unfolding list_command list_local client_free client_init
  list_command_local local = rw parsed (ground (arith, blocks))
    where
      blocks : NoBlocks (o, c)
      blocks =
          subst (λ (r : ℤ × ListState). NoBlocks r.1) parsed
            (list_options-NoBlocks with_libusb l opts (no_list_options, client_init defaults)
              (refl, refl))

  -- The same for a remote list, of a build without USBIP_WITH_LIBUSB and without a proxy, where
  -- there is memory for the copy of the URL, the URL can be parsed and has a supported method, and
  -- the library keeps the client's blocks: the one call lists the devices of the URL's host, and
  -- every block that was taken is given back.
  pub list_command_remote :
      (url : Str) (uri : Uri) (ssl : Bool)
      → ((host port : Str) (d : Client)
          → let e = (lib.importable_returns host port d).1 in
            (e.url_work ≡ d.url_work) × (e.proxy ≡ d.proxy))
      → with_libusb ≡ false
      → o.local ≡ false
      → o.url ≡ some url
      → o.proxy ≡ none
      → p.memory_for_url ≡ true
      → p.parse_uri url ≡ some uri
      → ssl_of uri.method ≡ some ssl
      → (d : Client) × (d.host ≡ uri.host)
        × (list_command with_libusb l defaults p lib opts m
            ≡ some (
              if is_true (lib.importable_returns uri.host d.tcp_port_s d).0
                  then negsuc 0
                  else pos 0,
              record m { fresh = suc m.fresh },
              log_calls with_libusb o.debug o.flags
                  ++ list_importable_devices uri.host d.tcp_port_s ∷ [],
            ))
  unfolding list_command list_remote set_target set_proxy client_free
  list_command_remote url uri ssl kept build remote given alone memory good supported =
      (targeted, refl, rw parsed (ground (arith, kept targeted.host targeted.tcp_port_s targeted)))
    where
      targeted : Client
      targeted = record (with_uri p uri (record c { url = some url; url_work = some m.fresh })) {
        ssl = ssl;
        proxy = none;
      }
