-- ===== src/Tests/Rings.antt =====
-- A list of two entries, at the addresses 1 and 2, behind the head at 0.
use usbws_lws.Base.{refl, ◌∷◌, [], List, ◌==◌, if◌then◌else◌}
use usbws_lws.Ring.{Ptr, Links, list_del}
use usbws_lws.Ring.Chain.{IsRing}
use usbws_lws.Ring.Delete.{list_del-IsRing}

abbrev pub memory : Links
memory a =
    if a == 0
    then record { next = 1; prev = 2 }
    else if a == 1
    then record { next = 2; prev = 0 }
    else record { next = 0; prev = 1 }

pub memory-IsRing : IsRing memory 0 (1 ∷ 2 ∷ [])
memory-IsRing = record {
  chain = (refl, refl, (refl, refl, (refl, refl)));
  apart = refl;
  distinct = (refl, (refl, tt));
}

list_del-IsRing_example : IsRing (list_del 1 memory) 0 (2 ∷ [])
list_del-IsRing_example = list_del-IsRing memory 0 [] 1 (2 ∷ []) memory-IsRing

abbrev entries : List Ptr
entries = 1 ∷ 2 ∷ []
