-- ===== src/Commands/Run/Once.antt =====
-- One run of `usbws` asks the USB/IP library for at most one thing.
use usbws_lws.Base.{
  ap, ℕ, ◌≡◌, ◌⊎◌, inl, inr, refl, Bool, Option, none, some, List, [], ◌∷◌, ◌++◌, arith, ℤ, pos,
  negsuc, is_true, if_intro,
}
use usbws_lws.Util.{Str}
use usbws_lws.Client.Memory.{Memory}
use usbws_lws.Client.State.{Client, client_init}
use usbws_lws.Client.Target.{client_free, set_target}
use usbws_lws.Commands.Dispatch.{
  Command, connect, disconnect, attach, detach, port, list, bind, unbind, help, version, error,
}
use usbws_lws.Commands.Calls.{
  LibCall, showed_help, set_log, set_debug_flags, call_device, bind_device, unbind_device,
  detach_port, list_imported_devices, list_local_devices, list_importable_devices, log_calls,
  device_calls,
}
use usbws_lws.Commands.Options.{ConnectOptions, no_options, connect_options}
use usbws_lws.Commands.Connect.{Exit, leave, has_device, run_device, run_target, connect_kind}
use usbws_lws.Commands.Listing.{
  ListOptions, no_list_options, list_options, list_local, list_remote, list_command,
}
use usbws_lws.Commands.Bind.{no_bind_options, bind_options, bind_call, bind_kind}
use usbws_lws.Commands.Detach.{detach_command}
use usbws_lws.Commands.Port.{no_port_options, port_options, port_command}
use usbws_lws.Commands.Serves.{device_calls-log_calls}
use usbws_lws.Commands.Asks.{detach_asks}
use usbws_lws.Commands.Run.{World}

module _ (w : World) where
  -- What the library returns for a call, of some client where it opens one.
  abbrev pub Returns : LibCall → ℤ → Type 0
  Returns (call_device cmd host tcp_port busid) r =
      (c : Client) × (r ≡ (w.device cmd host tcp_port busid c).0)
  Returns (bind_device busid) r = r ≡ w.bind_library.bind_returns busid
  Returns (unbind_device busid) r = r ≡ w.bind_library.unbind_returns busid
  Returns (detach_port p) r = r ≡ w.detach_returns p
  Returns list_imported_devices r = r ≡ w.port_returns
  Returns (list_local_devices parsable) r = r ≡ w.list_library.local_returns parsable
  Returns (list_importable_devices host tcp_port) r =
      (c : Client) × (r ≡ (w.list_library.importable_returns host tcp_port c).0)
  Returns showed_help r = ⊥
  Returns (set_log _) r = ⊥
  Returns (set_debug_flags _) r = ⊥

  -- Nothing is asked of the library, or one thing, and a failure is told by the failure of that.
  abbrev pub AsksOnce : ℤ → List LibCall → Type 0
  AsksOnce ret calls =
      (device_calls calls ≡ [])
      ⊎ ((call : LibCall) × (r : ℤ) × (device_calls calls ≡ call ∷ [])
          × Returns call r
          × (is_true ret ≡ is_true r))

  abbrev pub Once : Exit → Type 0
  Once none = Unit
  Once (some (ret, _, calls)) = AsksOnce ret calls

  option-Once :
      {A : Type 0} (x : Option A) (f : A → Exit)
      → ((a : A) → Once (f a))
      → Once (elim x [ none ↦ none | some a ↦ f a ])
  option-Once none f h = tt
  option-Once (some a) f h = h a

  leave-Once :
      (ret : ℤ) (c : Client) (m : Memory) (calls : List LibCall)
      → AsksOnce ret calls
      → Once (leave ret c m calls)
  leave-Once ret c m calls h = option-Once (client_free c m) (λ n. some (ret, n, calls)) (λ n. h)

  only_logged : (debug : Bool) (flags : _) → device_calls (log_calls w.with_libusb debug flags) ≡ []
  unfolding log_calls
  only_logged debug flags = ground arith

  run_device-Once :
      (cmd : Command) (o : ConnectOptions) (c : Client) (m : Memory)
      → Once (run_device w.with_libusb w.device cmd o c m (log_calls w.with_libusb o.debug o.flags))
  unfolding run_device
  run_device-Once cmd o c m =
      if_intro Once (has_device w.with_libusb cmd)
        (λ has. leave-Once _ _ m _ (
          inr (
            call_device cmd c.host c.tcp_port_s o.busid,
            (w.device cmd c.host c.tcp_port_s o.busid c).0,
            device_calls-log_calls w.with_libusb o.debug o.flags _,
            (c, refl),
            ground arith,
          )))
        (λ lacks. leave-Once (negsuc 0) c m _ (inl (only_logged o.debug o.flags)))

  run_target-Once :
      (cmd : Command) (o : ConnectOptions) (c : Client) (m : Memory)
      → Once (
          run_target w.with_libusb w.platform w.device cmd o c m
            (log_calls w.with_libusb o.debug o.flags))
  unfolding run_target
  run_target-Once cmd o c m = option-Once o.url _ (λ url.
      option-Once (set_target w.platform url o.proxy c m) _ (λ (ret, d, n).
        if_intro Once (is_true ret)
          (λ failed. leave-Once (negsuc 0) d n _ (inl (only_logged o.debug o.flags)))
          (λ fine. run_device-Once cmd o d n)))

  pub connect_kind-Once :
      (cmd : Command) (m : Memory)
      → Once (connect_kind w.with_libusb w.libc w.defaults w.platform w.device w.connect_opts cmd m)
  unfolding connect_kind
  connect_kind-Once cmd m =
      let (ret, o, c) =
        connect_options w.with_libusb w.libc w.connect_opts (no_options, client_init w.defaults) in
      if_intro Once (is_true ret) (λ bad. leave-Once (negsuc 0) c m _ (inl refl))
        (λ fine.
          if_intro Once o.help (λ asked. leave-Once (pos 0) c m _ (inl refl))
            (λ runs. run_target-Once cmd o c m))

  list_remote-Once :
      (o : ListOptions) (c : Client) (m : Memory)
      → Once (list_remote w.platform w.list_library o c m (log_calls w.with_libusb o.debug o.flags))
  unfolding list_remote
  list_remote-Once o c m = option-Once o.url _ (λ url.
      option-Once (set_target w.platform url o.proxy c m) _ (λ (ret, d, n).
        if_intro Once (is_true ret)
          (λ failed. leave-Once (negsuc 0) d n _ (inl (only_logged o.debug o.flags)))
          (λ fine. leave-Once _ _ n _ (
            inr (
              list_importable_devices d.host d.tcp_port_s,
              (w.list_library.importable_returns d.host d.tcp_port_s d).0,
              device_calls-log_calls w.with_libusb o.debug o.flags _,
              (d, refl),
              ground arith,
            )))))

  pub list_command-Once :
      (m : Memory)
      → Once (list_command w.with_libusb w.libc w.defaults w.platform w.list_library w.list_opts m)
  unfolding list_command list_local
  list_command-Once m =
      let (ret, (o, c)) =
        list_options w.with_libusb w.libc w.list_opts (no_list_options, client_init w.defaults) in
      if_intro Once (is_true ret) (λ bad. leave-Once (negsuc 0) c m _ (inl refl))
        (λ fine.
          if_intro Once o.help (λ asked. leave-Once (pos 0) c m _ (inl refl))
            (λ runs.
              if_intro Once o.local
                (λ near. leave-Once _ c m _ (
                  inr (
                    list_local_devices o.parsable,
                    w.list_library.local_returns o.parsable,
                    device_calls-log_calls w.with_libusb o.debug o.flags _,
                    refl,
                    ground arith,
                  )))
                (λ far.
                  if_intro Once w.with_libusb
                    (λ libusb. leave-Once (pos 0) c m _ (inl (only_logged o.debug o.flags)))
                    (λ vhci. list_remote-Once o c m))))

  abbrev pub OncePair : ℤ × List LibCall → Type 0
  OncePair (ret, calls) = AsksOnce ret calls

  pub port_command-Once : OncePair (port_command w.with_libusb w.libc w.port_returns w.port_opts)
  unfolding port_command
  port_command-Once =
      let (ret, o) = port_options w.with_libusb w.libc w.port_opts no_port_options in
      if_intro OncePair (is_true ret) (λ bad. inl refl)
        (λ fine.
          if_intro OncePair o.help (λ asked. inl refl)
            (λ runs. inr (
              list_imported_devices,
              w.port_returns,
              device_calls-log_calls w.with_libusb o.debug o.flags _,
              refl,
              refl,
            )))

  bind_call-Once :
      (debug : Bool) (flags : ℕ) (cmd : Command) (busid : Option Str)
      → AsksOnce
          (bind_call w.bind_library cmd busid).0
          (log_calls w.with_libusb debug flags ++ (bind_call w.bind_library cmd busid).1)
  unfolding bind_call
  bind_call-Once debug flags bind busid = inr (
    bind_device busid,
    w.bind_library.bind_returns busid,
    device_calls-log_calls w.with_libusb debug flags _,
    refl,
    refl,
  )
  bind_call-Once debug flags unbind busid = inr (
    unbind_device busid,
    w.bind_library.unbind_returns busid,
    device_calls-log_calls w.with_libusb debug flags _,
    refl,
    refl,
  )
  bind_call-Once debug flags connect busid =
      inl (device_calls-log_calls w.with_libusb debug flags [])
  bind_call-Once debug flags disconnect busid =
      inl (device_calls-log_calls w.with_libusb debug flags [])
  bind_call-Once debug flags attach busid =
      inl (device_calls-log_calls w.with_libusb debug flags [])
  bind_call-Once debug flags detach busid =
      inl (device_calls-log_calls w.with_libusb debug flags [])
  bind_call-Once debug flags port busid = inl (device_calls-log_calls w.with_libusb debug flags [])
  bind_call-Once debug flags list busid = inl (device_calls-log_calls w.with_libusb debug flags [])
  bind_call-Once debug flags help busid = inl (device_calls-log_calls w.with_libusb debug flags [])
  bind_call-Once debug flags version busid =
      inl (device_calls-log_calls w.with_libusb debug flags [])
  bind_call-Once debug flags error busid = inl (device_calls-log_calls w.with_libusb debug flags [])

  pub bind_kind-Once :
      (cmd : Command) → OncePair (bind_kind w.with_libusb w.libc w.bind_library w.bind_opts cmd)
  unfolding bind_kind
  bind_kind-Once cmd =
      let (ret, o) = bind_options w.with_libusb w.libc w.bind_opts no_bind_options in
      if_intro OncePair (is_true ret) (λ bad. inl refl)
        (λ fine.
          if_intro OncePair o.help (λ asked. inl refl)
            (λ runs. bind_call-Once o.debug o.flags cmd o.busid))

  pub detach_command-Once :
      OncePair (detach_command w.with_libusb w.libc w.detach_returns w.detach_opts)
  detach_command-Once = elim (detach_asks w.with_libusb w.libc w.detach_returns w.detach_opts) [
    | inl (silent, _) ↦ inl silent
    | inr (p, one, e) ↦
        inr (detach_port (some p), w.detach_returns (some p), one, refl, ap is_true e)
  ]
