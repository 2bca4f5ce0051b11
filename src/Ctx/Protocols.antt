-- ===== src/Ctx/Protocols.antt =====
-- `usbws_protocols` and `usbws_protocol_name` of src/usbws_session.c: what a context speaks.
use usbws_lws.Base.{ℕ, Option, none, some, List, [], ◌∷◌}

-- An entry's name and the largest frame that it receives. Its callback is `usbws_handle_session`, in
-- the entry that has a name, and its size that of a session.
pub record Protocol : Type 0 where
  pub name : Option (List ℕ)
  pub rx_buffer_size : ℕ

abbrev usb_ip : List ℕ
usb_ip = b'U' ∷ b'S' ∷ b'B' ∷ b'/' ∷ b'I' ∷ b'P' ∷ []

unfoldable pub protocols : List Protocol
protocols =
    record { name = some usb_ip; rx_buffer_size = 1500 }
    ∷ record { name = none; rx_buffer_size = 0 }
    ∷ []

-- Of the first entry.
abbrev pub first_name : List Protocol → Option (List ℕ)
first_name [] = none
first_name (p ∷ _) = p.name

unfoldable pub protocol_name : Option (List ℕ)
unfolding protocols
protocol_name = first_name protocols
