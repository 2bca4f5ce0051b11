-- ===== src/Windows.antt =====
-- src/usbws_win32.h: the two functions that stand for those of pthread on Windows. A handle is what
-- the system returned, `none` for NULL.
use usbws_lws.Base.{ℕ, ◌≡◌, ◌↔◌, refl, Option, none, some, ℤ, pos, negsuc}

-- With `CreateThread`: the result, and what `*handle` holds.
unfoldable pub thread_create : (created : Option ℕ) → ℤ × Option ℕ
thread_create none = (negsuc 0, none)
thread_create (some handle) = (pos 0, some handle)

-- With `CreateMutex`.
unfoldable pub mutex_init : (created : Option ℕ) → ℤ × Option ℕ
mutex_init (some handle) = (negsuc 0, some handle)
mutex_init none = (pos 0, none)

-- Of what the system returns the two functions make opposite results: a mutex that was created
-- counts as a failure.
pub mutex_init-thread_create :
    (created : Option ℕ) → ((mutex_init created).0 ≡ pos 0) ↔ ((thread_create created).0 ≡ negsuc 0)
unfolding mutex_init thread_create
mutex_init-thread_create none = (λ e. refl, λ e. refl)
mutex_init-thread_create (some handle) = (λ e. cc, λ e. cc)
