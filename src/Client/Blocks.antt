-- ===== src/Client/Blocks.antt =====
-- The blocks of a target: what `usbws_client_free` gives back, and where it cannot.
use usbws_lws.Base.{
  ℕ, suc, ◌<◌, ◌≡◌, ◌⊎◌, inl, inr, refl, true, Option, none, some, List, [], ◌∷◌, arith, pos,
  negsuc, Option-cases, Bool-cases, Bool, false,
}
use usbws_lws.Client.Memory.{Block, Memory, release}
use usbws_lws.Client.State.{Client}
use usbws_lws.Util.{Str, same_str, same_str-true}
use usbws_lws.Client.Target.{Uri, Platform, with_uri, set_target, set_proxy, client_free, ssl_of}

ssl_of_lem :
    (method : Str) (ssl : Bool)
    → ssl_of method ≡ some ssl
    → ((method ≡ b'w' ∷ b's' ∷ []) × (ssl ≡ false))
      ⊎ ((method ≡ b'w' ∷ b's' ∷ b's' ∷ []) × (ssl ≡ true))
ssl_of_lem method ssl e = elim (Bool-cases (same_str method (b'w' ∷ b's' ∷ []))) [
  | inl ws ↦ inl (same_str-true method _ ws, ground arith)
  | inr other ↦ inr (same_str-true method _ (ground arith), ground arith)
]

-- If `usbws_client_set_target` succeeds without a proxy, `usbws_client_free` gives back every block
-- that it took; and the client has the host and the port of the parsed URL, whose method is "ws" or
-- "wss", and SSL only with "wss".
pub set_target_frees :
    (p : Platform) (url : Str) (c d : Client) (m n : Memory)
    → set_target p url none c m ≡ some (pos 0, d, n)
    → (client_free d n ≡ some (record n { blocks = m.blocks }))
      × ((uri : Uri) × (p.parse_uri url ≡ some uri)
          × (d.host ≡ uri.host)
          × (d.tcp_port ≡ uri.port)
          × (((uri.method ≡ b'w' ∷ b's' ∷ []) × (d.ssl ≡ false))
              ⊎ ((uri.method ≡ b'w' ∷ b's' ∷ b's' ∷ []) × (d.ssl ≡ true))))
unfolding set_target set_proxy client_free
set_target_frees p url c d m n e = elim (Option-cases (p.parse_uri url)) [
  | inl bad ↦ ground arith
  | inr (uri, good) ↦
      let method : ssl_of uri.method ≡ some d.ssl = ground arith in
      (ground arith, (uri, good, ground arith, ground arith, ssl_of_lem uri.method d.ssl method))
]

-- Every address that was given out is below the next.
abbrev pub AllBelow : ℕ → List Block → Type 0
AllBelow f [] = Unit
AllBelow f (b ∷ bs) = (b.address < f) × AllBelow f bs

release_fresh : (f : ℕ) (bs : List Block) → AllBelow f bs → release f bs ≡ none
release_fresh f [] below = refl
release_fresh f (b ∷ bs) below = ground (arith, release_fresh f bs below.1)

-- The client once the work copy is made.
abbrev working : Client → Str → ℕ → Client
working c url work = record c { url = some url; url_work = some work }

-- Where there is memory for the work copy of the URL, and the URL cannot be parsed or has a method
-- that is not supported, `usbws_client_set_target` returns -1 with the copy given back and the
-- pointer to it kept, so that `usbws_client_free` frees it again.
pub set_target_frees_twice :
    (p : Platform) (url : Str) (proxy : Option Str) (c : Client) (m : Memory)
    → p.memory_for_url ≡ true
    → AllBelow m.fresh m.blocks
    → ((p.parse_uri url ≡ none)
        ⊎ ((uri : Uri) × (p.parse_uri url ≡ some uri) × (ssl_of uri.method ≡ none)))
    → (d : Client) × (n : Memory) × (set_target p url proxy c m ≡ some (negsuc 0, d, n))
      × (client_free d n ≡ none)
unfolding set_target client_free
set_target_frees_twice p url proxy c m memory below (inl bad) = (
  record (working c url m.fresh) { url = none },
  record m { fresh = suc m.fresh },
  ground arith,
  ground (arith, release_fresh m.fresh m.blocks below),
)
set_target_frees_twice p url proxy c m memory below (inr (uri, good, unsupported)) = (
  record (with_uri p uri (working c url m.fresh)) { url = none },
  record m { fresh = suc m.fresh },
  ground arith,
  ground (arith, release_fresh m.fresh m.blocks below),
)

-- With any proxy and memory for its copy, the copy is written past the end of its block, or the
-- proxy read past its end.
pub set_proxy_overflows :
    (p : Platform) (proxy : Str) (c : Client) (m : Memory)
    → p.memory_for_tmp ≡ true
    → set_proxy p (some proxy) c m ≡ none
unfolding set_proxy
set_proxy_overflows p [] c m memory = refl
set_proxy_overflows p (a ∷ rest) c m memory = ground arith
